-- ===== src/Utils/RateLimit/Bound.antt =====
-- utils/ratelimit.py: no window of time holds more hits than the limit.
use guillotina_oauth_server.Prelude.{
  ◌<◌, ◌≢◌, ◌∙◌, ap, Option, ℤ, ℕ, suc, ◌+◌, ◌≤◌, String, ◌≡◌, refl, ◌&&◌, none, some, List, [],
  ◌∷◌, ◌++◌, arith, leb, ltb, if◌then◌else◌, length, pos, get, Bool-cases, inl, inr, All,
}
use guillotina_oauth_server.Utils.RateLimit.Memory.{
  Windows, max_tracked_keys, popleft_expired, memory_rate_limit_exceeded,
}
use guillotina_oauth_server.Utils.RateLimit.Redis.{within}
use guillotina_oauth_server.Utils.RateLimit.Keys.{
  memory_rate_limit_exceeded_grows, get-memory_rate_limit_exceeded, deque_of-same,
}
use guillotina_oauth_server.Utils.RateLimit.Window.{
  IsSorted, popleft_expired-eq-within, deque_of, memory_rate_limit_exceeded_lem,
}

-- A call for the key in question at a time, or one for another key, with a limit, a window and a time of
-- its own
pub data Call : Type 0 where
  own : ℕ → Call
  foreign : String → Option ℤ → ℕ → ℕ → Call

-- The times of the calls for the key
unfoldable pub own_times : List Call → List ℕ
own_times [] = []
own_times (own now ∷ calls) = now ∷ own_times calls
own_times (foreign _ _ _ _ ∷ calls) = own_times calls

-- Whether a call is for another key than this one.
abbrev pub IsApart : String → Call → Type 0
IsApart key (own now) = Unit
IsApart key (foreign other limit window now) = other ≢ key

-- The times, of the calls for the key, at which they are let through.
unfoldable pub accepted : String → ℕ → ℕ → List Call → Windows → List ℕ
accepted key n window [] windows = []
accepted key n window (own now ∷ calls) windows =
    let outcome = memory_rate_limit_exceeded key (some (pos (suc n))) window now windows in
    let rest = accepted key n window calls outcome.1 in if outcome.0 then rest else now ∷ rest
accepted key n window (foreign other limit w now ∷ calls) windows =
    accepted key n window calls (memory_rate_limit_exceeded other limit w now windows).1

-- How many of the times lie in the window that ends at `t`: after `t - window`, and not after `t`.
unfoldable pub hits_in : ℕ → ℕ → List ℕ → ℕ
hits_in window t [] = 0
hits_in window t (u ∷ times) =
    (if leb u t && ltb t (u + window) then 1 else 0) + hits_in window t times

-- The same run, over the deque of the key alone.
accepted_deque : ℕ → ℕ → List ℕ → List ℕ → List ℕ
accepted_deque n window [] deque = []
accepted_deque n window (now ∷ times) deque =
    let hits = popleft_expired window now deque in
    let blocked = leb (suc n) (length hits) in
    let rest = accepted_deque n window times (if blocked then hits else hits ++ now ∷ []) in
    if blocked then rest else now ∷ rest

accepted-eq-accepted_deque :
    (key : String) (n window : ℕ) (calls : List Call) (windows : Windows)
    → All (IsApart key) calls
    → length windows + length calls ≤ max_tracked_keys
    → accepted key n window calls windows
      ≡ accepted_deque n window (own_times calls) (deque_of windows key)
unfolding accepted accepted_deque own_times
accepted-eq-accepted_deque key n window [] windows apart room = refl
accepted-eq-accepted_deque key n window (own now ∷ calls) windows apart room =
    let outcome = memory_rate_limit_exceeded key (some (pos (suc n))) window now windows in
    let step = memory_rate_limit_exceeded_lem key n window now windows in
    let fits : length windows < max_tracked_keys = omega arith in
    let grown = memory_rate_limit_exceeded_grows key (some (pos (suc n))) window now windows fits in
    let rest =
      accepted-eq-accepted_deque key n window calls outcome.1 apart.1
        (omega (arith, grown, room)) in
    rw (rest, step.0, step.1) refl
accepted-eq-accepted_deque key n window (foreign other limit w now ∷ calls) windows apart room =
    let outcome = memory_rate_limit_exceeded other limit w now windows in
    let fits : length windows < max_tracked_keys = omega arith in
    let grown = memory_rate_limit_exceeded_grows other limit w now windows fits in
    accepted-eq-accepted_deque key n window calls outcome.1 apart.1 (omega (arith, grown, room))
    ∙ ap (accepted_deque n window (own_times calls)) (
        deque_of-same outcome.1 windows key
          (get-memory_rate_limit_exceeded other limit w now windows key apart.0 fits))

within-within :
    (window now t : ℕ) (hits : List ℕ)
    → now ≤ t
    → within window t (within window now hits) ≡ within window t hits
unfolding within
within-within window now t [] h = refl
within-within window now t (u ∷ hits) h = ground (arith, within-within window now t hits h)

length-within-append :
    (window t now : ℕ) (hits : List ℕ)
    → length (within window t (hits ++ now ∷ []))
      ≡ length (within window t hits) + (if ltb t (now + window) then 1 else 0)
unfolding within
length-within-append window t now [] = ground arith
length-within-append window t now (u ∷ hits) =
    ground (arith, length-within-append window t now hits)

length-within-le : (window t : ℕ) (hits : List ℕ) → length (within window t hits) ≤ length hits
unfolding within
length-within-le window t [] = omega arith
length-within-le window t (u ∷ hits) = ground (arith, length-within-le window t hits)

IsSorted-within :
    (window now : ℕ) (hits : List ℕ) → IsSorted hits → IsSorted (within window now hits)
unfolding within
IsSorted-within window now [] sorted = tt
IsSorted-within window now (t ∷ hits) sorted =
    ground (arith, IsSorted-within window now hits sorted.1, All-within t hits)
  where
    All-within :
        (t : ℕ) (hits : List ℕ) → All (λ u. t ≤ u) hits → All (λ u. t ≤ u) (within window now hits)
    All-within t [] h = tt
    All-within t (u ∷ hits) h = ground (arith, All-within t hits h.1)

IsSorted-append :
    (now : ℕ) (hits : List ℕ)
    → IsSorted hits
    → All (λ u. u ≤ now) hits
    → IsSorted (hits ++ now ∷ [])
IsSorted-append now [] sorted h = (tt, tt)
IsSorted-append now (t ∷ hits) sorted h =
    (All-append hits sorted.0, IsSorted-append now hits sorted.1 h.1)
  where
    All-append : (hits : List ℕ) → All (λ u. t ≤ u) hits → All (λ u. t ≤ u) (hits ++ now ∷ [])
    All-append [] k = (h.0, tt)
    All-append (u ∷ hits) k = (k.0, All-append hits k.1)

-- The deque is in order and not ahead of the clock, and it holds every hit let through so far that can
-- still matter; and no window so far is over the limit.
record IsBounded (n window lo : ℕ) (passed deque : List ℕ) : Type 0 where
  sorted : IsSorted deque
  not_ahead : All (λ u. u ≤ lo) deque
  remembered : (t : ℕ) → lo ≤ t → hits_in window t passed ≤ length (within window t deque)
  bounded : (t : ℕ) → hits_in window t passed ≤ suc n

module _ (n window lo now : ℕ) (passed deque : List ℕ) (later : lo ≤ now)
    (b : IsBounded n window lo passed deque) where
  abbrev kept : List ℕ
  kept = within window now deque

  not_ahead-within :
      (hits : List ℕ) → All (λ u. u ≤ lo) hits → All (λ u. u ≤ now) (within window now hits)
  unfolding within
  not_ahead-within [] h = tt
  not_ahead-within (t ∷ hits) h = ground (arith, not_ahead-within hits h.1, h.0)

  -- A call that is blocked.
  blocked-IsBounded : IsBounded n window now passed kept
  blocked-IsBounded = record {
    sorted = IsSorted-within window now deque b.sorted;
    not_ahead = not_ahead-within deque b.not_ahead;
    remembered = λ t h. rw (within-within window now t deque h) (b.remembered t (omega arith));
    bounded = b.bounded;
  }

  -- A call that is let through.
  passed-IsBounded : length kept ≤ n → IsBounded n window now (now ∷ passed) (kept ++ now ∷ [])
  unfolding hits_in
  passed-IsBounded room = record {
    sorted =
        IsSorted-append now kept (IsSorted-within window now deque b.sorted)
          (not_ahead-within deque b.not_ahead);
    not_ahead = All-append_one kept (not_ahead-within deque b.not_ahead);
    remembered = λ t h. ground (
      arith,
      length-within-append window t now kept,
      within-within window now t deque h,
      b.remembered t (omega arith),
    );
    bounded = λ t. elim (Bool-cases (leb now t)) [
      | inr e ↦ ground (arith, b.bounded t)
      | inl e ↦
          let h : now ≤ t = ground arith in
          ground (
            arith,
            within-within window now t deque h,
            length-within-le window t kept,
            b.remembered t (omega arith),
          )
    ];
  }
    where
      All-append_one :
          (hits : List ℕ) → All (λ u. u ≤ now) hits → All (λ u. u ≤ now) (hits ++ now ∷ [])
      All-append_one [] h = (omega arith, tt)
      All-append_one (u ∷ hits) h = (h.0, All-append_one hits h.1)

-- The clock does not go back, from `lo` on.
abbrev pub IsMonotone : ℕ → List ℕ → Type 0
IsMonotone lo [] = Unit
IsMonotone lo (now ∷ times) = (lo ≤ now) × IsMonotone now times

accepted_deque-le :
    (n window lo : ℕ) (times passed deque : List ℕ) (t : ℕ)
    → IsMonotone lo times
    → IsBounded n window lo passed deque
    → hits_in window t passed + hits_in window t (accepted_deque n window times deque) ≤ suc n
unfolding accepted_deque hits_in
accepted_deque-le n window lo [] passed deque t m b = ground (arith, b.bounded t)
accepted_deque-le n window lo (now ∷ times) passed deque t m b =
    let hits = popleft_expired window now deque in
    let same : hits ≡ within window now deque =
      popleft_expired-eq-within window now deque b.sorted in
    elim (Bool-cases (leb (suc n) (length hits))) [
      | inl e ↦ rw e (
          rw same (
            accepted_deque-le n window now times passed (within window now deque) t m.1
              (blocked-IsBounded n window lo now passed deque m.0 b)))
      | inr e ↦
          let room : length (within window now deque) ≤ n = (rw (← same) (ground arith)) in
          let rest =
            accepted_deque-le n window now times (now ∷ passed)
              (within window now deque ++ now ∷ []) t m.1
              (passed-IsBounded n window lo now passed deque m.0 b room) in
          rw e (rw same (omega (arith, rest)))
    ]

-- The limiter keeps its promise for a key that is not tracked yet: in any sequence of calls for this key, with
-- a limit `n + 1` and a clock that does not go back, and for other keys, with any limits, windows and times,
-- in no window of time, wherever it ends, are more than `n + 1` of the calls for the key let through. This is as
-- long as nothing is evicted: the keys that are tracked and the calls are not more than `_MAX_TRACKED_KEYS`.
pub accepted-le-limit :
    (key : String) (n window : ℕ) (calls : List Call) (windows : Windows) (t : ℕ)
    → get windows key ≡ none
    → All (IsApart key) calls
    → length windows + length calls ≤ max_tracked_keys
    → IsMonotone 0 (own_times calls)
    → hits_in window t (accepted key n window calls windows) ≤ suc n
accepted-le-limit key n window calls windows t untracked apart room m =
    rw (accepted-eq-accepted_deque key n window calls windows apart room) (
      rw untracked (
        unfold hits_in in
        omega (arith, accepted_deque-le n window 0 (own_times calls) [] [] t m start)))
  where
    start : IsBounded n window 0 [] []
    start = record {
      sorted = tt;
      not_ahead = tt;
      remembered = λ t h. unfold hits_in in omega arith;
      bounded = λ t. unfold hits_in in omega arith;
    }
