-- ===== src/Store/Visits.antt =====
-- Page loads, fetches and time, for a query of apps/web/src/lib/persistedQuery.ts that is enabled.
use dca_protocol.Base.{ℕ, ◌+◌, Bool, true, List, [], ◌∷◌, Option, none, some, String, if◌then◌else◌}
use dca_protocol.Base.Dict.{Dict}
use dca_protocol.Store.Entries.{Entry, Codec, Cached, restore, query_fn}

-- What happens next: time passes, a page loads, a fetch brings data or fails. Storage may be blocked at a load, and
-- refuse what a fetch writes.
pub data Event (T : Type 0) : Type 0 where
  tick : ℕ → Event T
  load : Bool → Event T
  fetched : Bool → T → Event T
  failed : Event T

pub record Browser (T : Type 0) : Type 0 where
  pub now : ℕ
  pub cache : Option (Cached T)
  pub items : Dict String

module _ {T : Type 0} (codec : Codec T) (key : String) where
  abbrev with_page : Browser T → Option (Cached T) × Dict String → Browser T
  with_page b st = record b { cache = st.0; items = st.1 }

  -- A page load starts with an empty cache.
  unfoldable pub happen : Event T → Browser T → Browser T
  happen (tick n) b = record b { now = b.now + n }
  happen (load blocked) b =
      with_page b (restore codec true blocked b.now (some key) (none, b.items))
  happen (fetched refused value) b =
      with_page b (query_fn codec refused b.now key (some value) (b.cache, b.items))
  happen failed b = with_page b (query_fn codec true b.now key none (b.cache, b.items))

  unfoldable pub visit : List (Event T) → Browser T → Browser T
  unfolding happen
  visit [] b = b
  visit (e ∷ es) b = visit es (happen e b)

-- The last fetch that was written, read off the events, and the time after them.
unfoldable pub last_written :
    {T : Type 0} → ℕ → Option (Entry T) → List (Event T) → Option (Entry T)
last_written now last [] = last
last_written now last (tick n ∷ es) = last_written (now + n) last es
last_written now last (load blocked ∷ es) = last_written now last es
last_written now last (fetched refused value ∷ es) =
    last_written now (if refused then last else some (record { updated_at = now; content = value }))
      es
last_written now last (failed ∷ es) = last_written now last es

unfoldable pub time_after : {T : Type 0} → ℕ → List (Event T) → ℕ
time_after now [] = now
time_after now (tick n ∷ es) = time_after (now + n) es
time_after now (load blocked ∷ es) = time_after now es
time_after now (fetched refused value ∷ es) = time_after now es
time_after now (failed ∷ es) = time_after now es
