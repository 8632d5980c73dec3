-- ===== src/Store/Tests.antt =====
-- A concrete history of a query of apps/web/src/lib/persistedQuery.ts, and the theorem applied to it.
use Prim.Native.Char.{code}
use Prim.Native.String.{char_at}
use dca_protocol.Base.{
  ℕ, zero, suc, ◌==◌, true, false, List, [], ◌∷◌, ◌++◌, Option, none, some, String, if◌then◌else◌,
  ◌≡◌, refl, ap,
}
use dca_protocol.Base.Text.{template, decimal}
use dca_protocol.Store.Entries.{Parsed, thrown, no_entry, entry, Codec, storage_key}
use dca_protocol.Store.Visits.{
  Event, tick, load, fetched, failed, Browser, visit, time_after, last_written,
}
use dca_protocol.Store.Latest.{served, visit-served}

key_text : storage_key 31337 "directory" (some "0xAb") ≡ some "dca.q.v1:31337:directory:0xab"
unfolding storage_key template decimal dca_protocol.Base.Text.to_lower
key_text = refl

-- A time in strokes before the content.
written : ℕ → String → String
written zero content' = String.◌∷◌ (char_at ",1" 0) content'
written (suc n) content' = String.◌∷◌ (char_at ",1" 1) (written n content')

abbrev one_later : Parsed String → Parsed String
one_later thrown = thrown
one_later no_entry = no_entry
one_later (entry e) = entry (record e { updated_at = suc e.updated_at })

read_back : String → Parsed String
read_back String.[] = thrown
read_back (String.◌∷◌ c s) =
    let later = one_later (read_back s) in
    if code c == 49 then later else entry (record { updated_at = 0; content = s })

abbrev strokes : Codec String
strokes = record { serialize = λ e. written e.updated_at e.content; deserialize = read_back }

read_back-written :
    (n : ℕ) (s : String) → read_back (written n s) ≡ entry (record { updated_at = n; content = s })
unfolding read_back written
read_back-written zero s = refl
read_back-written (suc n) s = ap one_later (read_back-written n s)

-- A fetch, a second that fails after a while, a third that the storage refuses.
abbrev history : List (Event String)
history =
    load false
    ∷ fetched false "list"
    ∷ tick 30
    ∷ load false
    ∷ failed
    ∷ fetched true "newer list"
    ∷ tick 4
    ∷ []

abbrev new_browser : Browser String
new_browser = record { now = 2; cache = none; items = [] }

visit-served_example :
    (visit strokes "key" (history ++ (load false ∷ [])) new_browser).cache
    ≡ served (time_after 2 history) (last_written 2 none history)
visit-served_example =
    visit-served strokes "key" (λ e. read_back-written e.updated_at e.content) history false
      new_browser (unfold dca_protocol.Base.Dict.lookup in refl)

first_list :
    served (time_after 2 history) (last_written 2 none history)
    ≡ some (record { content = "list"; updated_at = 2; is_stale = true })
unfolding time_after last_written
first_list = refl
