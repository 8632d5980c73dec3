-- ===== src/Store/Entries.antt =====
-- `readEntry`, `writeEntry` and `usePersistedQuery` of apps/web/src/lib/persistedQuery.ts. The storage and the query cache
-- are states that are passed on; wagmi's serialisation is a parameter.
use dca_protocol.Base.{
  ℕ, ◌+◌, ◌*◌, Bool, true, false, [], ◌∷◌, Option, none, some, String, ltb, if◌then◌else◌,
}
use dca_protocol.Base.Dict.{Dict, lookup, insert, erase}
use dca_protocol.Base.Text.{template, decimal, to_lower, str_eq}

abbrev pub persist_max_age : ℕ
persist_max_age = 24 * 60 * 60000

-- `${PREFIX}:${chainId}:${name}:${addr}`, where the address is known.
unfoldable pub storage_key : ℕ → String → Option String → Option String
storage_key chain_id name none = none
storage_key chain_id name (some address) =
    if str_eq address ""
    then none
    else some (template ("dca.q.v1:" ∷ decimal chain_id ∷ ":" ∷ name ∷ ":" ∷ to_lower address ∷ []))

module _ (T : Type 0) where
  pub record Entry : Type 0 where
    pub updated_at : ℕ
    pub content : T

  -- What a stored text turns out to be: an exception, something that is no entry, or an entry.
  pub data Parsed : Type 0 where
    thrown : Parsed
    no_entry : Parsed
    entry : Entry → Parsed

  pub record Codec : Type 0 where
    pub serialize : Entry → String
    pub deserialize : String → Parsed

  -- A query of the cache that has data.
  pub record Cached : Type 0 where
    pub content : T
    pub updated_at : ℕ
    pub is_stale : Bool

module _ {T : Type 0} (codec : Codec T) where
  -- An exception leaves the item; anything else that is not served is removed.
  unfoldable pub read_parsed : ℕ → String → Parsed T → Dict String → Option (Entry T) × Dict String
  read_parsed now key thrown items = (none, items)
  read_parsed now key no_entry items = (none, erase key items)
  read_parsed now key (entry e) items =
      if ltb now (e.updated_at + persist_max_age) then (some e, items) else (none, erase key items)

  unfoldable pub read_item :
      ℕ → String → Option String → Dict String → Option (Entry T) × Dict String
  unfolding read_parsed
  read_item now key none items = (none, items)
  read_item now key (some raw) items = read_parsed now key (codec.deserialize raw) items

  -- Blocked storage is nothing stored.
  unfoldable pub read_entry : Bool → ℕ → String → Dict String → Option (Entry T) × Dict String
  unfolding read_item
  read_entry blocked now key items =
      if blocked then (none, items) else read_item now key (lookup key items) items

  -- Full or blocked storage keeps what it has.
  unfoldable pub write_entry : Bool → ℕ → String → T → Dict String → Dict String
  write_entry refused now key value items =
      if refused
      then items
      else insert key (codec.serialize (record { updated_at = now; content = value })) items

  unfoldable pub cached_from : Option (Entry T) → Option (Cached T)
  cached_from none = none
  cached_from (some e) =
      some (record { content = e.content; updated_at = e.updated_at; is_stale = true })

  -- The effect after mounting: a cache that has data wins.
  unfoldable pub restore :
      Bool
      → Bool
      → ℕ
      → Option String
      → Option (Cached T) × Dict String
      → Option (Cached T) × Dict String
  unfolding cached_from
  restore on blocked now none st = st
  restore on blocked now (some key) (some c, items) = (some c, items)
  restore on blocked now (some key) (none, items) =
      let read = read_entry blocked now key items in
      if on then (cached_from read.0, read.1) else (none, items)

  -- The query function, which is enabled only with a key: what a fetch brings is written and cached; a failed fetch
  -- changes nothing.
  unfoldable pub query_fn :
      Bool
      → ℕ
      → String
      → Option T
      → Option (Cached T) × Dict String
      → Option (Cached T) × Dict String
  query_fn refused now key none st = st
  query_fn refused now key (some value) st = (
    some (record { content = value; updated_at = now; is_stale = false }),
    write_entry refused now key value st.1,
  )
