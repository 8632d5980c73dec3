-- ===== src/Store/Latest.antt =====
-- What a page load of apps/web/src/lib/persistedQuery.ts shows, after any history.
use dca_protocol.Base.{
  ℕ, ◌+◌, ◌≤◌, Bool, true, false, List, [], ◌∷◌, ◌++◌, Option, none, some, String, ltb,
  if◌then◌else◌, ◌≡◌, refl, ◌∙◌, ◌⊎◌, inl, inr, arith, Bool-cases,
}
use dca_protocol.Base.Dict.{Dict, lookup, lookup-insert_self, erase, lookup-erase}
use dca_protocol.Base.Text.{eq_refl}
use dca_protocol.Store.Entries.{
  Entry, entry, Codec, Cached, persist_max_age, read_entry, read_item, read_parsed, cached_from,
  write_entry, restore, query_fn,
}
use dca_protocol.Store.Visits.{
  Event, tick, load, fetched, failed, Browser, happen, visit, last_written, time_after,
}

-- What may be served of the last fetch written.
abbrev pub served : {T : Type 0} → ℕ → Option (Entry T) → Option (Cached T)
served now none = none
served now (some e) =
    if ltb now (e.updated_at + persist_max_age)
    then some (record { content = e.content; updated_at = e.updated_at; is_stale = true })
    else none

module _ {T : Type 0} (codec : Codec T) (key : String)
    (round_trip : (e : Entry T) → codec.deserialize (codec.serialize e) ≡ entry e) where
  -- The storage has the last fetch written, or nothing where there is none that could be served.
  Holds : ℕ → Option (Entry T) → Dict String → Type 0
  Holds now none items = lookup key items ≡ none
  Holds now (some e) items =
      (lookup key items ≡ some (codec.serialize e))
      ⊎ ((lookup key items ≡ none) × (e.updated_at + persist_max_age ≤ now))

  Holds-later :
      (now n : ℕ) (last : Option (Entry T)) (items : Dict String)
      → Holds now last items
      → Holds (now + n) last items
  unfolding Holds
  Holds-later now n none items h = h
  Holds-later now n (some e) items (inl there) = inl there
  Holds-later now n (some e) items (inr (gone, old)) = inr (gone, omega arith)

  fresh : ℕ → Entry T → Bool
  fresh now e = ltb now (e.updated_at + persist_max_age)

  read_missing :
      (now : ℕ) (items : Dict String)
      → lookup key items ≡ none
      → read_entry codec false now key items ≡ (none, items)
  unfolding read_entry read_item
  read_missing now items gone = rw gone refl

  read_stored :
      (now : ℕ) (e : Entry T) (items : Dict String)
      → lookup key items ≡ some (codec.serialize e)
      → read_entry codec false now key items
        ≡ (if fresh now e then (some e, items) else (none, erase key items))
  unfolding read_entry read_item read_parsed fresh
  read_stored now e items there = rw (there, round_trip e) refl

  erased : (items : Dict String) → lookup key (erase key items) ≡ none
  erased items = lookup-erase key key items ∙ rw (eq_refl key) refl

  restore-served :
      (blocked : Bool) (now : ℕ) (last : Option (Entry T)) (items : Dict String)
      → Holds now last items
      → ((restore codec true blocked now (some key) (none, items)).0
          ≡ (if blocked then none else served now last))
        × Holds now last (restore codec true blocked now (some key) (none, items)).1
  unfolding Holds restore cached_from fresh
  restore-served true now last items h = unfold read_entry in (refl, h)
  restore-served false now none items h = rw (read_missing now items h) (refl, h)
  restore-served false now (some e) items (inr (gone, old)) =
      rw (read_missing now items gone) (ground arith, inr (gone, old))
  restore-served false now (some e) items (inl there) = elim (Bool-cases (fresh now e)) [
    | inl young ↦ rw (read_stored now e items there, young) (refl, inl there)
    | inr old ↦ rw (read_stored now e items there, old) (refl, inr (erased items, ground arith))
  ]

  visit-Holds :
      (es : List (Event T)) (b : Browser T) (last : Option (Entry T))
      → Holds b.now last b.items
      → Holds (time_after b.now es) (last_written b.now last es) (visit codec key es b).items
        × ((visit codec key es b).now ≡ time_after b.now es)
  unfolding visit happen time_after last_written query_fn write_entry
  visit-Holds [] b last h = (h, refl)
  visit-Holds (tick n ∷ es) b last h =
      visit-Holds es (record b { now = b.now + n }) last (Holds-later b.now n last b.items h)
  visit-Holds (load blocked ∷ es) b last h =
      visit-Holds es _ last (restore-served blocked b.now last b.items h).1
  visit-Holds (fetched true v ∷ es) b last h = visit-Holds es _ last h
  visit-Holds (fetched false v ∷ es) b last h =
      visit-Holds es _ (some (record { updated_at = b.now; content = v }))
        (unfold Holds in inl (lookup-insert_self key _ b.items))
  visit-Holds (failed ∷ es) b last h = visit-Holds es b last h

  visit-load :
      (blocked : Bool) (es : List (Event T)) (b : Browser T)
      → visit codec key (es ++ (load blocked ∷ [])) b
        ≡ happen codec key (load blocked) (visit codec key es b)
  unfolding visit
  visit-load blocked [] b = refl
  visit-load blocked (e ∷ es) b = visit-load blocked es (happen codec key e b)

  -- If a stored entry reads back as it was written, then whatever has happened since the storage had no item, a page
  -- load starts with the data of the last fetch that was written, at its own time and stale, if that is less than a
  -- day old, and else, or if the storage is blocked, with none.
  pub visit-served :
      (es : List (Event T)) (blocked : Bool) (b : Browser T)
      → lookup key b.items ≡ none
      → (visit codec key (es ++ (load blocked ∷ [])) b).cache
        ≡ (if blocked then none else served (time_after b.now es) (last_written b.now none es))
  unfolding happen
  visit-served es blocked b empty =
      let (held, at_time) = visit-Holds es b none (unfold Holds in empty) in
      let after = visit codec key es b in
      rw (visit-load blocked es b, at_time)
        (restore-served blocked (time_after b.now es) (last_written b.now none es) after.items
          held).0
