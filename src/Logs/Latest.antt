-- ===== src/Logs/Latest.antt =====
-- `planLiveness` of apps/web/src/hooks/useLogs.ts against the latest log of each plan, and the plans that stay listed.
use dca_protocol.Base.{
  Bool, true, false, ◌&&◌, ◌||◌, ◌==◌, ltb, List, [], ◌∷◌, Option, none, some, String,
  if◌then◌else◌, is_some, All, ◌≡◌, refl, sym, ap, subst, ◌∙◌, arith, Bool-cases, Option-cases, inl,
  inr,
}
use dca_protocol.Base.Dict.{Dict, lookup, lookup-insert}
use dca_protocol.Base.Sort.{
  sorted_insert, sorted_insert-behind, sorted_insert-here, sort_by, IsSorted, All-below,
  sort_by-IsSorted,
}
use dca_protocol.Base.Text.{str_eq}
use dca_protocol.Logs.Liveness.{
  IndexEvent, plan_indexed, plan_closed, deposited, IndexLog, earlier, noted, note_all,
  plan_liveness,
}

-- What an event says of its plan; a close that parked it says nothing.
unfoldable pub verdict : IndexEvent → Option Bool
verdict (plan_indexed active) = some active
verdict deposited = some true
verdict (plan_closed true) = some false
verdict (plan_closed false) = none

-- One place after another on the chain: in a later block, or later in the same block.
abbrev pub comes_after : IndexLog → IndexLog → Bool
comes_after l m =
    ltb m.block_number l.block_number
    || (l.block_number == m.block_number && ltb m.log_index l.log_index)

earlier-comes_after : (m l : IndexLog) → earlier m l ≡ comes_after l m
unfolding earlier
earlier-comes_after m l = ground arith

abbrev decides : String → IndexLog → Bool
decides key l = str_eq l.key key && is_some (verdict l.event)

-- The later of a log and of the latest of others; of two at one place the one further on counts.
abbrev later_of : String → IndexLog → Option IndexLog → Option IndexLog
later_of key l none = if decides key l then some l else none
later_of key l (some m) = if decides key l && comes_after l m then some l else some m

-- The latest log that says something of a plan, in whatever order the logs come.
unfoldable pub latest : String → List IndexLog → Option IndexLog
unfolding verdict
latest key [] = none
latest key (l ∷ logs) = later_of key l (latest key logs)

abbrev pub state_of : Option IndexLog → Option Bool
state_of none = none
state_of (some l) = verdict l.event

-- The last log of a list that says something of a plan.
abbrev unless_later : String → IndexLog → Option IndexLog → Option IndexLog
unless_later key l none = if decides key l then some l else none
unless_later key l (some m) = some m

last_word : String → List IndexLog → Option IndexLog
last_word key [] = none
last_word key (l ∷ logs) = unless_later key l (last_word key logs)

earlier_trans : (a b c : IndexLog) → earlier a b ≡ false → earlier b c ≡ false → earlier a c ≡ false
unfolding earlier
earlier_trans a b c p q = ground arith

earlier_asymm : (a b : IndexLog) → earlier a b ≡ true → earlier b a ≡ false
unfolding earlier
earlier_asymm a b p = ground arith

last_word-All :
    (P : IndexLog → Type 0) (key : String) (logs : List IndexLog) (m : IndexLog)
    → All P logs
    → last_word key logs ≡ some m
    → P m
unfolding last_word
last_word-All P key [] m all e = absurd (cc e)
last_word-All P key (l ∷ logs) m (pl, all) e = elim (Option-cases (last_word key logs)) [
  | inl silent ↦ subst P (only (rw silent at e)) pl
  | inr (w, said) ↦ last_word-All P key logs m all (said ∙ rw said at e)
]
  where
    only : unless_later key l none ≡ some m → l ≡ m
    only h = ground arith

behind_lem :
    (key : String) (x y : IndexLog) (o : Option IndexLog)
    → earlier y x ≡ true
    → unless_later key y (later_of key x o) ≡ later_of key x (unless_later key y o)
behind_lem key x y none first = ground (arith, earlier-comes_after y x)
behind_lem key x y (some m) first =
    ground (arith, earlier-comes_after y x, earlier-comes_after y m, earlier-comes_after m x)

here_lem :
    (key : String) (x : IndexLog) (o : Option IndexLog)
    → ((m : IndexLog) → o ≡ some m → earlier m x ≡ false)
    → unless_later key x o ≡ later_of key x o
here_lem key x none below = refl
here_lem key x (some m) below = let late = below m refl in ground (arith, earlier-comes_after m x)

last_word-cons :
    (key : String) (l : IndexLog) (logs : List IndexLog)
    → last_word key (l ∷ logs) ≡ unless_later key l (last_word key logs)
unfolding last_word
last_word-cons key l logs = refl

last_word-sorted_insert :
    (key : String) (x : IndexLog) (ys : List IndexLog)
    → IsSorted earlier ys
    → last_word key (sorted_insert earlier x ys) ≡ later_of key x (last_word key ys)
last_word-sorted_insert key x [] s = unfold last_word sorted_insert in refl
last_word-sorted_insert key x (y ∷ ys) (below, s) = elim (Bool-cases (earlier y x)) [
  | inl first ↦
      ap (last_word key) (sorted_insert-behind earlier x y ys first)
      ∙ last_word-cons key y (sorted_insert earlier x ys)
      ∙ ap (unless_later key y) (last_word-sorted_insert key x ys s)
      ∙ behind_lem key x y (last_word key ys) first
      ∙ ap (later_of key x) (sym (last_word-cons key y ys))
  | inr later ↦
      let all : All (λ z. earlier z x ≡ false) (y ∷ ys) =
        (later, All-below earlier earlier_asymm earlier_trans x y ys later below) in
      ap (last_word key) (sorted_insert-here earlier x y ys later)
      ∙ last_word-cons key x (y ∷ ys)
      ∙ here_lem key x _
          (λ m said. last_word-All (λ z. earlier z x ≡ false) key (y ∷ ys) m all said)
]

last_word-sort_by :
    (key : String) (logs : List IndexLog) → last_word key (sort_by earlier logs) ≡ latest key logs
unfolding last_word sort_by latest
last_word-sort_by key [] = refl
last_word-sort_by key (l ∷ logs) =
    last_word-sorted_insert key l _ (sort_by-IsSorted earlier earlier_asymm earlier_trans logs)
    ∙ ap (later_of key l) (last_word-sort_by key logs)

-- A state that was there, unless a log says otherwise.
abbrev state_after : Option Bool → Option IndexLog → Option Bool
state_after before none = before
state_after before (some m) = verdict m.event

lookup-noted :
    (key k : String) (e : IndexEvent) (live : Dict Bool)
    → lookup key (noted e k live)
      ≡ (if str_eq k key && is_some (verdict e) then verdict e else lookup key live)
unfolding noted verdict
lookup-noted key k (plan_indexed active) live = ground (arith, lookup-insert k key active live)
lookup-noted key k deposited live = ground (arith, lookup-insert k key true live)
lookup-noted key k (plan_closed true) live = ground (arith, lookup-insert k key false live)
lookup-noted key k (plan_closed false) live = ground arith

noted_lem :
    (key : String) (l : IndexLog) (live : Dict Bool) (o : Option IndexLog)
    → state_after (lookup key (noted l.event l.key live)) o
      ≡ state_after (lookup key live) (unless_later key l o)
noted_lem key l live (some m) = refl
noted_lem key l live none = ground (arith, lookup-noted key l.key l.event live)

lookup-note_all :
    (key : String) (logs : List IndexLog) (live : Dict Bool)
    → lookup key (note_all logs live) ≡ state_after (lookup key live) (last_word key logs)
unfolding note_all last_word
lookup-note_all key [] live = refl
lookup-note_all key (l ∷ logs) live =
    lookup-note_all key logs _ ∙ noted_lem key l live (last_word key logs)

-- Whether a plan is live is what the latest log that says something of it says, by block and then by log index, in
-- whatever order the logs come; a plan of which no log says anything is not in the index.
pub plan_liveness-eq-latest :
    (key : String) (logs : List IndexLog)
    → lookup key (plan_liveness logs) ≡ state_of (latest key logs)
unfolding plan_liveness lookup
plan_liveness-eq-latest key logs =
    lookup-note_all key (sort_by earlier logs) []
    ∙ ap (state_after none) (last_word-sort_by key logs)
    ∙ state_of_lem (latest key logs)
  where
    state_of_lem : (o : Option IndexLog) → state_after none o ≡ state_of o
    state_of_lem none = refl
    state_of_lem (some m) = refl
