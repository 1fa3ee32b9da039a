-- ===== src/Gateway/Tokens/SingleUse.antt =====
-- The bound on the registrations of a token, kept by every store update.
use warp_insight.Prelude.{
  ℕ, ◌+◌, ◌≤◌, ◌≡◌, refl, sym, subst, true, false, List, [], ◌∷◌, some, ltb, if◌then◌else◌, arith,
  inl, inr, Bool-cases, Option-cases,
}
use warp_insight.Prelude.Text.{Text, text_eq, text_eq_iff}
use warp_insight.Prelude.Assoc.{
  get, insert, get-insert, get-insert_self, length-insert, contains_key,
}
use warp_insight.Prelude.Chrono.{Chrono}
use warp_insight.Prelude.Results.{Result, ok, err}
use warp_insight.Gateway.Config.{AdminConfig}
use warp_insight.Gateway.Store.{
  StoredEnrollmentToken, StoredAgentRegistration, AdminStoreSnapshot, is_reserved, is_active, Disk,
  works, load_fails, save_fails, sync_fails, update, update_result, save_result,
}
use warp_insight.Gateway.Tokens.{
  recover_expired_reservation, release, reserve_token, commit_token, validate_token, put_token,
  issued_token, store_issued_token, validate_bootstrap_token_for_config, reserve_enrollment_token,
  commit_reserved_registration, rollback_enrollment_token_reservation,
}
use warp_insight.Gateway.Tokens.Uses.{
  Call, issues, validates, reserves, commits, rolls_back, step, added, registrations, reissued,
  Fits, Holds, release-Fits, recover-Fits, reserve_token-Fits, commit_token-Fits,
  validate_token-Fits,
}

-- One rule for all the closures of `update`, and one for those of `update_result`.
update-keeps :
    {T : Type 0} (P : AdminStoreSnapshot → Type 0) (disk : Disk)
    (mutate : AdminStoreSnapshot → AdminStoreSnapshot × T) (s : AdminStoreSnapshot)
    → P s
    → P (mutate s).0
    → P (update disk mutate s).0
unfolding update
update-keeps P works mutate s p q = q
update-keeps P (load_fails e) mutate s p q = p
update-keeps P (save_fails e) mutate s p q = p
update-keeps P (sync_fails e) mutate s p q = q

abbrev After :
    {T : Type 0} → (AdminStoreSnapshot → Type 0) → Result Text (AdminStoreSnapshot × T) → Type 0
After P (ok (s, output)) = P s
After P (err e) = Unit

save_result-keeps :
    {T : Type 0} (P : AdminStoreSnapshot → Type 0) (disk : Disk) (s : AdminStoreSnapshot)
    (r : Result Text (AdminStoreSnapshot × T))
    → P s
    → After P r
    → P (save_result disk s r).0
save_result-keeps P disk s (err e) p q = p
save_result-keeps P works s (ok (s', output)) p q = q
save_result-keeps P (load_fails e) s (ok (s', output)) p q = p
save_result-keeps P (save_fails e) s (ok (s', output)) p q = p
save_result-keeps P (sync_fails e) s (ok (s', output)) p q = q

update_result-keeps :
    {T : Type 0} (P : AdminStoreSnapshot → Type 0) (disk : Disk)
    (mutate : AdminStoreSnapshot → Result Text (AdminStoreSnapshot × T)) (s : AdminStoreSnapshot)
    → P s
    → After P (mutate s)
    → P (update_result disk mutate s).0
unfolding update_result
update_result-keeps P works mutate s p q = save_result-keeps P works s (mutate s) p q
update_result-keeps P (load_fails e) mutate s p q = p
update_result-keeps P (save_fails e) mutate s p q =
    save_result-keeps P (save_fails e) s (mutate s) p q
update_result-keeps P (sync_fails e) mutate s p q =
    save_result-keeps P (sync_fails e) s (mutate s) p q

put_token-Holds :
    (h k : Text) (c d m : ℕ) (t t' : StoredEnrollmentToken) (s : AdminStoreSnapshot)
    → get k s.enrollment_tokens ≡ some t
    → (text_eq k h ≡ false → d ≡ c)
    → (text_eq k h ≡ true → Fits c m t → Fits d m t')
    → Holds h c m s
    → Holds h d m (put_token t' k s)
put_token-Holds h k c d m t t' s e same keep held = elim (Bool-cases (text_eq k h)) [
  | inl y ↦ record {
    token = t';
    present = rw (get-insert h k t' s.enrollment_tokens, y) refl;
    fits = keep y (subst (Fits c m) (ground (arith, held.present, text_eq_iff k h)) held.fits);
  }
  | inr n ↦ record {
    token = held.token;
    present = rw (get-insert h k t' s.enrollment_tokens, n) held.present;
    fits = subst (λ x. Fits x m held.token) (sym (same n)) held.fits;
  }
]

validate-Holds :
    (chrono : Chrono) (config : AdminConfig) (now : ℕ) (k h : Text) (c m : ℕ)
    (s : AdminStoreSnapshot)
    → Holds h c m s
    → Holds h c m (validate_bootstrap_token_for_config chrono config now k s).0
unfolding validate_bootstrap_token_for_config
validate-Holds chrono config now k h c m s held = elim (Option-cases (get k s.enrollment_tokens)) [
  | inl e ↦ rw (validate_bootstrap_token_for_config, e) held
  | inr (t, e) ↦
      rw (validate_bootstrap_token_for_config, e)
        (put_token-Holds h k c c m t (validate_token chrono config now k t).0 s e (λ n. refl)
          (λ y. validate_token-Fits chrono config now k c m t) held)
]

rollback-Holds :
    (k h : Text) (c m : ℕ) (s : AdminStoreSnapshot)
    → Holds h c m s
    → Holds h c m (rollback_enrollment_token_reservation k s).0
unfolding rollback_enrollment_token_reservation
rollback-Holds k h c m s held = elim (Option-cases (get k s.enrollment_tokens)) [
  | inl e ↦ rw (rollback_enrollment_token_reservation, e) held
  | inr (t, e) ↦ elim (Bool-cases (is_reserved t.status)) [
    | inl r ↦
        rw (rollback_enrollment_token_reservation, e, r)
          (put_token-Holds h k c c m t (release t) s e (λ n. refl) (λ y. release-Fits c m t r) held)
    | inr r ↦ rw (rollback_enrollment_token_reservation, e, r) held
  ]
]

issue-Holds :
    (chrono : Chrono) (config : AdminConfig) (now : ℕ) (k h : Text) (c m : ℕ)
    (s : AdminStoreSnapshot)
    → text_eq k h ≡ false
    → Holds h c m s
    → Holds h c m (store_issued_token chrono config now k s).0
unfolding store_issued_token
issue-Holds chrono config now k h c m s n held = record {
  token = held.token;
  present =
      rw (get-insert h k (issued_token chrono config now k) s.enrollment_tokens, n) held.present;
  fits = held.fits;
}

-- What the guards of the reservation let through.
reserve-inv :
    (chrono : Chrono) (config : AdminConfig) (now later : ℕ) (k agent_id : Text)
    (s s' : AdminStoreSnapshot) (o : Text)
    → reserve_enrollment_token chrono config now later k agent_id s ≡ ok (s', o)
    → (t : StoredEnrollmentToken) × (get k s.enrollment_tokens ≡ some t)
      × (is_active (recover_expired_reservation chrono now t).status ≡ true)
      × (ltb
            (recover_expired_reservation chrono now t).used_count
            (recover_expired_reservation chrono now t).max_uses
          ≡ true)
      × (s' ≡ put_token (reserve_token chrono now (recover_expired_reservation chrono now t)) k s)
unfolding reserve_enrollment_token
reserve-inv chrono config now later k agent_id s s' o h = ground arith

pub commit-inv :
    (k : Text) (registration : StoredAgentRegistration) (s s' : AdminStoreSnapshot) (o : Unit {0})
    → commit_reserved_registration k registration s ≡ ok (s', o)
    → (t : StoredEnrollmentToken) × (get k s.enrollment_tokens ≡ some t)
      × (is_reserved t.status ≡ true)
      × (contains_key registration.agent_id s.agents ≡ false)
      × (s' ≡ record (put_token (commit_token t) k s) {
        agents = insert registration.agent_id registration s.agents;
      })
unfolding commit_reserved_registration
commit-inv k registration s s' o h = ground arith

reserve-Holds :
    (chrono : Chrono) (config : AdminConfig) (now later : ℕ) (k agent_id h : Text) (c m : ℕ)
    (s : AdminStoreSnapshot)
    → Holds h c m s
    → (r : Result Text (AdminStoreSnapshot × Text))
    → reserve_enrollment_token chrono config now later k agent_id s ≡ r
    → After (λ s'. Holds h c m s') r
reserve-Holds chrono config now later k agent_id h c m s held (err e) q = tt
reserve-Holds chrono config now later k agent_id h c m s held (ok (s', o)) q =
    let (t, e, a, u, same) = reserve-inv chrono config now later k agent_id s s' o q in
    let t' = recover_expired_reservation chrono now t in
    subst (Holds h c m) (sym same) (
      put_token-Holds h k c c m t (reserve_token chrono now t') s e (λ n. refl)
        (λ y f.
          reserve_token-Fits chrono now c m t' (ground arith) u (recover-Fits chrono now c m t f))
        held)

-- What a commit leaves.
abbrev pub committed :
    Text → StoredAgentRegistration → StoredEnrollmentToken → AdminStoreSnapshot → AdminStoreSnapshot
committed k registration t s = record (put_token (commit_token t) k s) {
  agents = insert registration.agent_id registration s.agents;
}

added-committed :
    (k h : Text) (registration : StoredAgentRegistration) (t : StoredEnrollmentToken)
    (s : AdminStoreSnapshot)
    → contains_key registration.agent_id s.agents ≡ false
    → added h (commits k registration) s (committed k registration t s)
      ≡ (if text_eq k h then 1 else 0)
unfolding added
added-committed k h registration t s absent =
    ground (arith, length-insert registration.agent_id registration s.agents)

commit-Holds :
    (k h : Text) (registration : StoredAgentRegistration) (c m : ℕ) (s : AdminStoreSnapshot)
    → Holds h c m s
    → (r : Result Text (AdminStoreSnapshot × Unit {0}))
    → commit_reserved_registration k registration s ≡ r
    → After (λ s'. Holds h (c + added h (commits k registration) s s') m s') r
commit-Holds k h registration c m s held (err e) q = tt
commit-Holds k h registration c m s held (ok (s', o)) q =
    let (t, e, r, absent, same) = commit-inv k registration s s' o q in
    let one = if text_eq k h then 1 else 0 in
    let kept =
      put_token-Holds h k c (c + one) m t (commit_token t) s e (λ n. rw n (omega arith))
        (λ y f. rw y (commit_token-Fits c m t r f)) held in
    subst (λ x. Holds h (c + added h (commits k registration) s x) m x) (sym same)
      (rw (added-committed k h registration t s absent)
        (record { token = kept.token; present = kept.present; fits = kept.fits }))

none_added : (h : Text) (c m : ℕ) (s : AdminStoreSnapshot) → Holds h c m s → Holds h (c + 0) m s
none_added h c m s held = subst (λ x. Holds h x m s) (omega arith) held

step-Holds :
    (chrono : Chrono) (config : AdminConfig) (h : Text) (c m : ℕ) (call : Call) (disk : Disk)
    (s : AdminStoreSnapshot)
    → reissued h ((call, disk) ∷ []) ≡ false
    → Holds h c m s
    → Holds h
        (c + added h call s (step chrono config call disk s))
        m
        (step chrono config call disk s)
unfolding step added reissued
step-Holds chrono config h c m (issues now k) disk s n held = none_added h c m _ (
    update-keeps (Holds h c m) disk (store_issued_token chrono config now k) s held
      (issue-Holds chrono config now k h c m s (ground arith) held))
step-Holds chrono config h c m (validates now k) disk s n held = none_added h c m _ (
    update-keeps (Holds h c m) disk (validate_bootstrap_token_for_config chrono config now k) s held
      (validate-Holds chrono config now k h c m s held))
step-Holds chrono config h c m (reserves now later k agent_id) disk s n held = none_added h c m _ (
    update_result-keeps (Holds h c m) disk
      (reserve_enrollment_token chrono config now later k agent_id) s held
      (reserve-Holds chrono config now later k agent_id h c m s held _ refl))
step-Holds chrono config h c m (commits k registration) disk s n held =
    update_result-keeps (λ s'. Holds h (c + added h (commits k registration) s s') m s') disk
      (commit_reserved_registration k registration) s
      (subst (λ x. Holds h (c + x) m s) (ground arith) (none_added h c m s held))
      (commit-Holds k h registration c m s held (commit_reserved_registration k registration s)
        refl)
step-Holds chrono config h c m (rolls_back k) disk s n held = none_added h c m _ (
    update-keeps (Holds h c m) disk (rollback_enrollment_token_reservation k) s held
      (rollback-Holds k h c m s held))

reissued-first :
    (h : Text) (call : Call) (disk : Disk) (calls : List (Call × Disk))
    → reissued h ((call, disk) ∷ calls) ≡ false
    → (reissued h ((call, disk) ∷ []) ≡ false) × (reissued h calls ≡ false)
unfolding reissued
reissued-first h (issues now k) disk calls n = ground arith
reissued-first h (validates now k) disk calls n = (refl, n)
reissued-first h (reserves now later k agent_id) disk calls n = (refl, n)
reissued-first h (commits k registration) disk calls n = (refl, n)
reissued-first h (rolls_back k) disk calls n = (refl, n)

registrations-le :
    (chrono : Chrono) (config : AdminConfig) (h : Text) (calls : List (Call × Disk)) (c m : ℕ)
    (s : AdminStoreSnapshot)
    → reissued h calls ≡ false
    → Holds h c m s
    → c + registrations chrono config h calls s ≤ m
unfolding registrations
registrations-le chrono config h [] c m s n held =
    ground (arith, held.fits.counted, held.fits.within, held.fits.limit)
registrations-le chrono config h ((call, disk) ∷ calls) c m s n held =
    let (n1, n2) = reissued-first h call disk calls n in
    let rest =
      registrations-le chrono config h calls _ m _ n2
        (step-Holds chrono config h c m call disk s n1 held) in
    omega arith

issued-Holds :
    (chrono : Chrono) (config : AdminConfig) (now : ℕ) (h : Text) (s : AdminStoreSnapshot)
    → Holds h 0 1 (store_issued_token chrono config now h s).0
unfolding store_issued_token issued_token
issued-Holds chrono config now h s = record {
  token = issued_token chrono config now h;
  present = get-insert_self h (issued_token chrono config now h) s.enrollment_tokens;
  fits = record { counted = omega arith; within = omega arith; limit = refl; word = omega arith };
}

-- A new install code's token, once stored, puts at most one agent into the store, whatever store
-- updates of other requests for install codes, initial configurations and enrollments follow, in
-- any order and with any failures of the disk, as long as no later install code is given the same
-- hash.
pub issued_token-single_use :
    (chrono : Chrono) (config : AdminConfig) (now : ℕ) (h : Text) (calls : List (Call × Disk))
    (s : AdminStoreSnapshot)
    → reissued h calls ≡ false
    → registrations chrono config h calls (store_issued_token chrono config now h s).0 ≤ 1
issued_token-single_use chrono config now h calls s n =
    let bound =
      registrations-le chrono config h calls 0 1 (store_issued_token chrono config now h s).0 n
        (issued-Holds chrono config now h s) in
    omega arith
