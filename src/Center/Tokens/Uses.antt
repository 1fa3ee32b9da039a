-- ===== src/Center/Tokens/Uses.antt =====
-- How many registrations the tokens of the control center allow.
use warp_insight.Prelude.{
  ℕ, ◌+◌, ◌-◌, ◌≤◌, ◌≡◌, refl, some, List, [], ◌∷◌, arith, Option-cases, inl, inr,
}
use warp_insight.Prelude.Text.{Text, text}
use warp_insight.Prelude.Assoc.{Assoc, get, insert}
use warp_insight.Prelude.Results.{Result, ok, err}
use warp_insight.Secret.{sha256_hex}
use warp_insight.Snapshots.{Disk, works, load_fails, save_fails, sync_fails, update}
use warp_insight.Center.Store.{StoredEnrollmentToken, EnrollmentTokenIssue, CenterStoreSnapshot}
use warp_insight.Center.Tokens.{
  create_enrollment_token, revoke_enrollment_token, consume_token, consume_in,
  consume_enrollment_token,
}

-- The store updates of the requests that touch a token.
pub data Call : Type 0 where
  creates : ℕ → Text → EnrollmentTokenIssue → Call
  revokes : ℕ → Text → Text → Call
  consumes : ℕ → Text → Call

abbrev succeeded : {A : Type 0} → Result Text (Result Text A) → ℕ
succeeded (ok (ok a)) = 1
succeeded (ok (err e)) = 0
succeeded (err e) = 0

-- The store after a call, and 1 for a token that was consumed.
unfoldable pub step :
    (List ℕ → List ℕ) → Call → Disk → CenterStoreSnapshot → CenterStoreSnapshot × ℕ
unfolding update
step digest (creates now gateway_id issue) disk s =
    ((update disk (create_enrollment_token digest now gateway_id issue) s).0, 0)
step digest (revokes now gateway_id token_id) disk s =
    ((update disk (revoke_enrollment_token now gateway_id token_id) s).0, 0)
step digest (consumes now token) disk s =
    let (s', answer) = update disk (consume_enrollment_token digest now token) s in
    (s', succeeded answer)

unfoldable pub consumed : (List ℕ → List ℕ) → List (Call × Disk) → CenterStoreSnapshot → ℕ
unfolding step
consumed digest [] s = 0
consumed digest ((call, disk) ∷ calls) s =
    let (s', one) = step digest call disk s in one + consumed digest calls s'

unfoldable pub created : List (Call × Disk) → ℕ
created [] = 0
created ((creates now gateway_id issue, disk) ∷ calls) = 1 + created calls
created ((revokes now gateway_id token_id, disk) ∷ calls) = created calls
created ((consumes now token, disk) ∷ calls) = created calls

-- The uses that the tokens in the store still allow.
unfoldable pub remaining : Assoc StoredEnrollmentToken → ℕ
remaining [] = 0
remaining ((id, token) ∷ tokens) = (token.max_uses - token.used_count) + remaining tokens

remaining-insert-le :
    (id : Text) (token : StoredEnrollmentToken) (tokens : Assoc StoredEnrollmentToken)
    → remaining (insert id token tokens) ≤ remaining tokens + (token.max_uses - token.used_count)
unfolding remaining insert
remaining-insert-le id token [] = ground arith
remaining-insert-le id token ((j, t) ∷ tokens) = ground (arith, remaining-insert-le id token tokens)

remaining-insert_same :
    (id : Text) (old token : StoredEnrollmentToken) (tokens : Assoc StoredEnrollmentToken)
    → get id tokens ≡ some old
    → token.max_uses ≡ old.max_uses
    → token.used_count ≡ old.used_count
    → remaining (insert id token tokens) ≡ remaining tokens
unfolding remaining insert get
remaining-insert_same id old token [] e m u = cc
remaining-insert_same id old token ((j, t) ∷ tokens) e m u =
    ground (arith, remaining-insert_same id old token tokens)

abbrev one_if_ok : {A : Type 0} → Result Text A → ℕ
one_if_ok (ok a) = 1
one_if_ok (err e) = 0

remaining-consume_in :
    (now : ℕ) (hash : Text) (tokens : Assoc StoredEnrollmentToken)
    → remaining (consume_in now hash tokens).0 + one_if_ok (consume_in now hash tokens).1
      ≡ remaining tokens
unfolding remaining consume_in consume_token
remaining-consume_in now hash [] = refl
remaining-consume_in now hash ((id, token) ∷ tokens) =
    ground (arith, remaining-consume_in now hash tokens)

created-cons :
    (call : Call) (disk : Disk) (calls : List (Call × Disk))
    → created ((call, disk) ∷ calls) ≡ created ((call, disk) ∷ []) + created calls
unfolding created
created-cons (creates now gateway_id issue) disk calls = omega arith
created-cons (revokes now gateway_id token_id) disk calls = omega arith
created-cons (consumes now token) disk calls = omega arith

create-remaining :
    (digest : List ℕ → List ℕ) (now : ℕ) (gateway_id : Text) (issue : EnrollmentTokenIssue)
    (s : CenterStoreSnapshot)
    → remaining (create_enrollment_token digest now gateway_id issue s).0.enrollment_tokens
      ≤ remaining s.enrollment_tokens + 1
unfolding create_enrollment_token
create-remaining digest now gateway_id issue s =
    let token = (create_enrollment_token digest now gateway_id issue s).1 in
    remaining-insert-le token.token_id token s.enrollment_tokens

revoke-remaining :
    (now : ℕ) (gateway_id token_id : Text) (s : CenterStoreSnapshot)
    → remaining (revoke_enrollment_token now gateway_id token_id s).0.enrollment_tokens
      ≡ remaining s.enrollment_tokens
unfolding revoke_enrollment_token
revoke-remaining now gateway_id token_id s =
    elim (Option-cases (get token_id s.enrollment_tokens)) [
      | inl e ↦ ground arith
      | inr (t, e) ↦ ground (
        arith,
        remaining-insert_same token_id t
            (record t { status = text "Revoked"; revoked_at = some now }) s.enrollment_tokens e refl
            refl,
      )
    ]

consume-remaining :
    (digest : List ℕ → List ℕ) (now : ℕ) (token : Text) (s : CenterStoreSnapshot)
    → remaining (consume_enrollment_token digest now token s).0.enrollment_tokens
        + one_if_ok (consume_enrollment_token digest now token s).1
      ≡ remaining s.enrollment_tokens
unfolding consume_enrollment_token
consume-remaining digest now token s =
    remaining-consume_in now (sha256_hex digest token) s.enrollment_tokens

step-remaining :
    (digest : List ℕ → List ℕ) (call : Call) (disk : Disk) (s : CenterStoreSnapshot)
    → remaining (step digest call disk s).0.enrollment_tokens + (step digest call disk s).1
      ≤ remaining s.enrollment_tokens + created ((call, disk) ∷ [])
unfolding step created update
step-remaining digest (creates now gateway_id issue) works s =
    ground (arith, create-remaining digest now gateway_id issue s)
step-remaining digest (creates now gateway_id issue) (load_fails e) s = omega arith
step-remaining digest (creates now gateway_id issue) (save_fails e) s = omega arith
step-remaining digest (creates now gateway_id issue) (sync_fails e) s =
    ground (arith, create-remaining digest now gateway_id issue s)
step-remaining digest (revokes now gateway_id token_id) works s =
    ground (arith, revoke-remaining now gateway_id token_id s)
step-remaining digest (revokes now gateway_id token_id) (load_fails e) s = omega arith
step-remaining digest (revokes now gateway_id token_id) (save_fails e) s = omega arith
step-remaining digest (revokes now gateway_id token_id) (sync_fails e) s =
    ground (arith, revoke-remaining now gateway_id token_id s)
step-remaining digest (consumes now token) works s =
    ground (arith, consume-remaining digest now token s)
step-remaining digest (consumes now token) (load_fails e) s = omega arith
step-remaining digest (consumes now token) (save_fails e) s = omega arith
step-remaining digest (consumes now token) (sync_fails e) s =
    ground (arith, consume-remaining digest now token s)

-- Over the store updates that create, revoke and consume enrollment tokens, in any order and with
-- any failures of the disk, the uses that were granted are at most those that the store's tokens
-- still allowed at the start and one for each creation.
pub consumed-le-created :
    (digest : List ℕ → List ℕ) (calls : List (Call × Disk)) (s : CenterStoreSnapshot)
    → consumed digest calls s ≤ remaining s.enrollment_tokens + created calls
unfolding consumed
consumed-le-created digest [] s = omega arith
consumed-le-created digest ((call, disk) ∷ calls) s =
    let rest = consumed-le-created digest calls (step digest call disk s).0 in
    let first = step-remaining digest call disk s in
    let sum = created-cons call disk calls in omega arith
