-- ===== src/Delivery/Watermark/History.antt =====
-- Histories of calls of `observe` and `commit_range` of watermark.rs.
use warp_insight.Prelude.{
  ℕ, ◌+◌, ◌-◌, ◌≤◌, ◌<◌, ◌≡◌, refl, Bool, true, false, ◌&&◌, ◌||◌, List, [], ◌∷◌, ltb, leb, ◌==◌,
  arith, Bool-cases, inl, inr, max, ◌⊎◌, ◌∙◌,
}
use warp_insight.Prelude.Words.{u64_max}
use warp_insight.Delivery.Watermark.{Tracker, observe, commit_range, new, duplicate}
use warp_insight.Delivery.Watermark.Settle.{Inv, present}
use warp_insight.Delivery.Watermark.Observe.{
  known, Advances, Advances-known, observe-known, observe-Advances, observe-Inv,
  commit_range_settled, commit_range-Advances, commit_range-Inv, new-Inv,
}

-- A call on a tracker.
pub data Call : Type 0 where
  observes : ℕ → Call
  commits : ℕ → ℕ → Call

-- The numbers of a call lie below the largest `u64`.
abbrev pub InRange : Call → Type 0
InRange (observes seq) = seq < u64_max
InRange (commits start stop) = stop < u64_max

abbrev pub AllInRange : List Call → Type 0
AllInRange [] = Unit {0}
AllInRange (c ∷ cs) = InRange c × AllInRange cs

unfoldable pub step : Call → Tracker → Tracker
unfolding observe commit_range
step (observes seq) t = (observe seq t).0
step (commits start stop) t = (commit_range start stop t).0

unfoldable pub run : List Call → Tracker → Tracker
unfolding step
run [] t = t
run (c ∷ cs) t = run cs (step c t)

pub step-Inv : (c : Call) (t : Tracker) → Inv t → InRange c → Inv (step c t)
unfolding step
step-Inv (observes seq) t v h = observe-Inv t seq v h
step-Inv (commits start stop) t v h = commit_range-Inv t start stop v h

-- The window: the numbers not settled yet lie at most `lag` behind the highest.
abbrev pub InWindow : Tracker → Type 0
InWindow t = t.high - t.committed ≤ t.lag

abbrev pub Kept : Tracker → Tracker → Type 0
Kept t t' =
    ((n : ℕ) → known n t ≡ true → known n t' ≡ true)
    × (InWindow t → InWindow t')
    × (t.committed ≤ t'.committed)
    × (t'.lag ≡ t.lag)

Kept-refl : (t : Tracker) → Kept t t
Kept-refl t = ((λ n q. q), (λ q. q), omega arith, refl)

Kept-trans : (t u w : Tracker) → Kept t u → Kept u w → Kept t w
Kept-trans t u w first rest = (
  (λ n q. rest.0 n (first.0 n q)),
  (λ q. rest.1 (first.1 q)),
  omega (arith, first.2, rest.2),
  rest.3 ∙ first.3,
)

Advances-Kept :
    (t : Tracker) (here : ℕ → Bool) (high : ℕ) (t' : Tracker) (lost : List ℕ)
    → ((n : ℕ) → present n t ≡ true → here n ≡ true)
    → Advances t here high t' lost
    → Kept t t'
Advances-Kept t here high t' lost k w = (
  (λ n q. Advances-known t here high t' lost n w (rw q refl) (k n)),
  (λ q. omega (arith, w.window, w.same_lag, w.new_high)),
  w.forward,
  w.same_lag,
)

observe-Kept : (seq : ℕ) (t : Tracker) → Inv t → seq < u64_max → Kept t (observe seq t).0
observe-Kept seq t v h = elim (Bool-cases (known seq t)) [
  | inl q ↦ rw (observe-known t seq v q) (Kept-refl t)
  | inr q ↦
      Advances-Kept t (λ n. n == seq || present n t) (max t.high seq) _ _ (λ n r. ground arith)
        (observe-Advances t seq v h q).1
]

pub settled_cases :
    (start stop : ℕ) (t : Tracker)
    → (ltb stop start || ltb stop t.committed) ≡ true
    → (stop < start) ⊎ (stop < t.committed)
settled_cases start stop t q = ground arith

commit_range-Kept :
    (start stop : ℕ) (t : Tracker) → Inv t → stop < u64_max → Kept t (commit_range start stop t).0
commit_range-Kept start stop t v h = elim (Bool-cases (ltb stop start || ltb stop t.committed)) [
  | inl q ↦ rw (commit_range_settled t start stop v (settled_cases start stop t q)) (Kept-refl t)
  | inr q ↦
      Advances-Kept t (λ n. (leb start n && leb n stop) || present n t) (max t.high stop) _ _
        (λ n r. ground arith) (commit_range-Advances t start stop v (ground arith) (ground arith) h)
]

pub step-Kept : (c : Call) (t : Tracker) → Inv t → InRange c → Kept t (step c t)
unfolding step
step-Kept (observes seq) t v h = observe-Kept seq t v h
step-Kept (commits start stop) t v h = commit_range-Kept start stop t v h

-- Every call keeps the invariant, so it holds after any history.
run-Inv : (cs : List Call) (t : Tracker) → Inv t → AllInRange cs → Inv (run cs t)
unfolding run
run-Inv [] t v h = v
run-Inv (c ∷ cs) t v h = run-Inv cs (step c t) (step-Inv c t v h.0) h.1

pub run-Kept : (cs : List Call) (t : Tracker) → Inv t → AllInRange cs → Kept t (run cs t)
unfolding run
run-Kept [] t v h = Kept-refl t
run-Kept (c ∷ cs) t v h =
    Kept-trans t (step c t) (run cs (step c t)) (step-Kept c t v h.0)
      (run-Kept cs (step c t) (step-Inv c t v h.0) h.1)

-- After any history of a new tracker the unsettled numbers lie at most `lag` behind the highest, and
-- `committed` is at most one past it.
pub run-InWindow :
    (lag : ℕ) (cs : List Call)
    → AllInRange cs
    → ((run cs (new lag)).high - (run cs (new lag)).committed ≤ lag)
      × ((run cs (new lag)).committed ≤ (run cs (new lag)).high + 1)
unfolding new
run-InWindow lag cs h = (
  omega (
    arith,
    (run-Kept cs (new lag) (new-Inv lag) h).1 (omega arith),
    (run-Kept cs (new lag) (new-Inv lag) h).3,
  ),
  (run-Inv cs (new lag) (new-Inv lag) h).committed_le,
)

-- Once `seq` has been observed, as a new record or not, every later `observe` of it answers
-- `duplicate` with nothing lost, whatever calls come between.
pub observe_once :
    (t : Tracker) (seq : ℕ) (cs : List Call)
    → Inv t
    → seq < u64_max
    → AllInRange cs
    → let later = run cs (observe seq t).0 in
      observe seq later ≡ (later, record { outcome = duplicate; lost = [] })
observe_once t seq cs v h hs =
    observe-known later seq (run-Inv cs _ (observe-Inv t seq v h) hs)
      ((run-Kept cs _ (observe-Inv t seq v h) hs).0 seq (observed_known (Bool-cases (known seq t))))
  where
    later : Tracker
    later = run cs (observe seq t).0

    observed_known :
        (known seq t ≡ true) ⊎ (known seq t ≡ false) → known seq (observe seq t).0 ≡ true
    observed_known (inl q) = rw (observe-known t seq v q) q
    observed_known (inr q) =
        Advances-known t (λ n. n == seq || present n t) (max t.high seq) _ _ seq
          (observe-Advances t seq v h q).1 (ground arith) (λ r. ground arith)
