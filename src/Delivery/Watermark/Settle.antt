-- ===== src/Delivery/Watermark/Settle.antt =====
-- What `settle` of watermark.rs does.
use warp_insight.Prelude.{
  ℕ, zero, suc, ◌+◌, ◌-◌, ◌≤◌, ◌<◌, ◌≡◌, refl, Bool, true, false, ◌&&◌, ◌||◌, not, List, [], ◌∷◌,
  ltb, leb, ◌==◌, length, arith, Bool-cases, ◌⊎◌, ==_iff, inl, inr,
}
use warp_insight.Prelude.Words.{u64_max, add_u64-eq}
use warp_insight.Delivery.Watermark.Ranges.{covered, Spaced}
use warp_insight.Delivery.Watermark.SeqSet.{
  contains, remove, Distinct, contains-remove, remove-Distinct, length-remove,
}
use warp_insight.Delivery.Watermark.{Tracker, drain_prefix}

-- `high` stays below the largest number, so that no addition wraps.
pub record Inv (t : Tracker) : Type 0 where
  pub high_lt : t.high < u64_max
  pub committed_le : t.committed ≤ t.high + 1
  pub distinct : Distinct t.observed
  pub observed_le : (n : ℕ) → contains n t.observed ≡ true → n ≤ t.high
  pub spaced : Spaced 0 t.high t.dropped_ranges

-- `n` is observed or lies in a dropped range.
abbrev pub present : ℕ → Tracker → Bool
present n t = contains n t.observed || covered n t.dropped_ranges

-- `c ≤ n < d`.
abbrev pub within : ℕ → ℕ → ℕ → Bool
within c d n = leb c n && ltb n d

pub record Drains (high c : ℕ) (observed : List ℕ) (r : List ℕ × ℕ) : Type 0 where
  pub forward : c ≤ r.1
  pub bounded : r.1 ≤ high + 1
  pub stops : contains r.1 r.0 ≡ false
  pub members : (n : ℕ) → contains n r.0 ≡ (contains n observed && not (within c r.1 n))
  pub taken : (n : ℕ) → within c r.1 n ≡ true → contains n observed ≡ true
  pub distinct : Distinct r.0
  pub count : length r.0 + r.1 ≡ length observed + c

Drains-remove :
    (high c : ℕ) (observed : List ℕ) (r : List ℕ × ℕ)
    → Distinct observed
    → contains c observed ≡ true
    → Drains high (c + 1) (remove c observed) r
    → Drains high c observed r
Drains-remove high c observed r v e w = record {
  forward = omega arith;
  bounded = w.bounded;
  stops = w.stops;
  members = λ n. ground (arith, w.members n, w.forward, contains-remove n c observed);
  taken = λ n q. taken_from n q (Bool-cases (n == c));
  distinct = w.distinct;
  count = omega (arith, length-remove c observed v e);
}
  where
    taken_from :
        (n : ℕ)
        → within c r.1 n ≡ true
        → ((n == c) ≡ true) ⊎ ((n == c) ≡ false)
        → contains n observed ≡ true
    taken_from n q (inl same) = rw ((==_iff n c).0 same) e
    taken_from n q (inr other) = ground (arith, w.taken n, contains-remove n c observed)

pub drain_prefix-Drains :
    (high fuel : ℕ) (observed : List ℕ) (c : ℕ)
    → high < u64_max
    → ((n : ℕ) → contains n observed ≡ true → n ≤ high)
    → Distinct observed
    → c ≤ high + 1
    → length observed ≤ fuel
    → Drains high c observed (drain_prefix fuel observed c)
unfolding drain_prefix
drain_prefix-Drains high zero [] c lt le v h k =
    unfold contains in
    record {
      forward = omega arith;
      bounded = h;
      stops = refl;
      members = λ n. refl;
      taken = λ n e. ground arith;
      distinct = tt;
      count = omega arith;
    }
drain_prefix-Drains high zero (x ∷ xs) c lt le v h k = absurd (omega arith)
drain_prefix-Drains high (suc fuel) observed c lt le v h k =
    elim (Bool-cases (contains c observed)) [
      | inr e ↦ rw e (record {
        forward = omega arith;
        bounded = h;
        stops = e;
        members = λ n. ground arith;
        taken = λ n q. ground arith;
        distinct = v;
        count = omega arith;
      })
      | inl e ↦
          rw (e, add_u64-eq c 1 (omega (arith, le c e)))
            (Drains-remove high c observed _ v e (
              drain_prefix-Drains high fuel (remove c observed) (c + 1) lt
                (λ n q. le n (ground (arith, contains-remove n c observed)))
                (remove-Distinct c observed v) (omega (arith, le c e))
                (omega (arith, length-remove c observed v e))))
    ]

abbrev pub Ascending : ℕ → List ℕ → Type 0
Ascending low [] = Unit {0}
Ascending low (x ∷ xs) = (low ≤ x) × Ascending (x + 1) xs

pub Ascending-mono :
    (low low' : ℕ) (xs : List ℕ) → low' ≤ low → Ascending low xs → Ascending low' xs
Ascending-mono low low' [] h v = tt
Ascending-mono low low' (x ∷ xs) h v = (omega arith, v.1)

-- Settling `t` gives the tracker `r.0` and the lost numbers `r.1`.
pub record Settles (t : Tracker) (r : Tracker × List ℕ) : Type 0 where
  pub inv : Inv r.0
  pub same_lag : r.0.lag ≡ t.lag
  pub same_high : r.0.high ≡ t.high
  pub forward : t.committed ≤ r.0.committed
  pub stops : present r.0.committed r.0 ≡ false
  pub window : t.high - r.0.committed ≤ t.lag
  pub earliest :
      (n : ℕ)
      → within t.committed r.0.committed n ≡ true
      → (present n t || ltb t.lag (t.high - n)) ≡ true
  pub lost_iff :
      (n : ℕ) → contains n r.1 ≡ (within t.committed r.0.committed n && not (present n t))
  pub ascending : Ascending t.committed r.1
  pub ahead_observed : (n : ℕ) → r.0.committed ≤ n → contains n r.0.observed ≡ contains n t.observed
  pub ahead_dropped :
      (n : ℕ) → r.0.committed ≤ n → covered n r.0.dropped_ranges ≡ covered n t.dropped_ranges
  pub behind : (n : ℕ) → n < t.committed → contains n r.0.observed ≡ contains n t.observed
  pub shrinks : length r.0.observed ≤ length t.observed
  pub count :
      t.dropped_ranges ≡ []
      → (r.0.dropped_ranges ≡ [])
        × (length r.0.observed + r.0.committed ≡ length t.observed + t.committed + length r.1)

-- Draining first.
pub drained-Settles :
    (t : Tracker) (observed : List ℕ) (d : ℕ) (r : Tracker × List ℕ)
    → Drains t.high t.committed t.observed (observed, d)
    → Settles (record t { observed = observed; committed = d }) r
    → Settles t r
drained-Settles t observed d r w s = record {
  inv = s.inv;
  same_lag = s.same_lag;
  same_high = s.same_high;
  forward = omega (arith, w.forward, s.forward);
  stops = s.stops;
  window = s.window;
  earliest = λ n q. ground (arith, w.taken n, w.members n, w.forward, s.earliest n);
  lost_iff = λ n. ground (arith, w.taken n, w.members n, w.forward, s.forward, s.lost_iff n);
  ascending = Ascending-mono d t.committed r.1 w.forward s.ascending;
  ahead_observed = λ n q. ground (arith, w.members n, s.forward, s.ahead_observed n q);
  ahead_dropped = s.ahead_dropped;
  behind = λ n q. ground (arith, w.members n, w.forward, s.behind n (omega (arith, w.forward)));
  shrinks = omega (arith, w.count, w.forward, s.shrinks);
  count = λ e. ((s.count e).0, omega (arith, w.count, (s.count e).1));
}
