-- ===== src/Settle/Success.antt =====
-- src/server.ts: what a success that /settle reports rests on.
use vellar_facilitator.Base.{
  ℕ, ◌≡◌, ◌⊎◌, Bool-cases, inl, inr, refl, sym, ◌∙◌, ap, String, Bool, true, false, not, Option,
  none, some, arith, ◌==◌, ==_iff, str_eq, if◌then◌else◌,
}
use vellar_facilitator.Policy.{SpendPolicy, check_settle}
use vellar_facilitator.Settle
use vellar_facilitator.Settle.{
  Result, Attempt, Captured, Registration, registered, rejected, infrastructure_error, threw,
  Response, refused, answered, raised, Request, Deployment, Shared, answer_registration,
  is_already_registered, register_bond, respond, conclude, perform, attempt_settle, consult,
  run_settle_pipeline,
}

abbrev success_of : Response → Bool
success_of (refused status why) = false
success_of (answered r) = r.success
success_of raised = false

-- The bond contract has the settlement on record.
abbrev pub HasStanding : Registration → Type 0
HasStanding reg = (reg ≡ registered) ⊎ (reg ≡ rejected (some 3))

answer-HasStanding :
    (r q : Result) (reg : Registration) → answer_registration r reg ≡ answered q → HasStanding reg
answer-HasStanding r q registered e = inl refl
answer-HasStanding r q (rejected none) e = cc
answer-HasStanding r q (rejected (some code)) e = recorded (code == 3) refl e
  where
    recorded :
        (b : Bool)
        → (code == 3) ≡ b
        → (if b then answered r else refused 500 Settle.bond_registration_rejected) ≡ answered q
        → HasStanding (rejected (some code))
    recorded true h e = inr (ap (λ c. rejected (some c)) ((==_iff code 3).0 h))
    recorded false h e = cc
answer-HasStanding r q infrastructure_error e = cc
answer-HasStanding r q threw e = cc

register-HasStanding :
    (seller payer : Option String) (r q : Result) (reg : Registration)
    → register_bond seller payer r reg ≡ answered q
    → HasStanding reg
unfolding register_bond
register-HasStanding none payer r q reg e = cc
register-HasStanding (some seller) none r q reg e = cc
register-HasStanding (some seller) (some payer) r q reg e = named (str_eq payer "") e
  where
    named :
        (b : Bool)
        → (if b
            then refused 503 Settle.bond_registration_unavailable
            else answer_registration r reg)
          ≡ answered q
        → HasStanding reg
    named true e = cc
    named false e = answer-HasStanding r q reg e

-- A response that the guards let through.
passed :
    (b : Bool) (s : Shared) (status : ℕ) (why : Settle.Reason) (out : Shared × Response)
    (q : Result)
    → (if b then (s, refused status why) else out).1 ≡ answered q
    → (b ≡ false) × (out.1 ≡ answered q)
passed true s status why out q e = cc
passed false s status why out q e = (refl, e)

respond-HasStanding :
    (d : Deployment) (req : Request) (r q : Result)
    → respond d req r ≡ answered q
    → q.success ≡ true
    → d.has_bond_escrow ≡ true
    → HasStanding d.registration
unfolding respond
respond-HasStanding d req r q e ok bond = elim (Bool-cases r.success) [
  | inl good ↦
      register-HasStanding req.seller r.payer r q d.registration (ground (arith, e, good, bond))
  | inr bad ↦
      let same : answered r ≡ answered q = ground (arith, e, bad) in
      let fields : r.success ≡ q.success = ap success_of same in
      absurd (ground (arith, fields, ok, bad))
]

conclude-HasStanding :
    (d : Deployment) (req : Request) (reservation : Option ℕ) (exhausted : Bool) (s : Shared)
    (m : Option Result) (q : Result)
    → (conclude d req reservation exhausted s m).1 ≡ answered q
    → q.success ≡ true
    → d.has_bond_escrow ≡ true
    → HasStanding d.registration
conclude-HasStanding d req reservation exhausted s none q e ok bond = cc
conclude-HasStanding d req reservation exhausted s (some r) q e ok bond =
    respond-HasStanding d req r q (passed exhausted s 503 Settle.pool_exhausted _ q e).1 ok bond

abbrev allowed_by : Request → ℕ → Option SpendPolicy → Bool
allowed_by req now none = true
allowed_by req now (some p) = (check_settle req.identity now p).0.allowed

-- The guards that a success has passed.
abbrev pub IsAdmitted : Deployment → Request → ℕ → Option SpendPolicy → Type 0
IsAdmitted d req now policy =
    (req.is_parseable ≡ true)
    × (d.is_paused ≡ false)
    × (d.settle_allowed ≡ true)
    × ((p : SpendPolicy) → policy ≡ some p → (check_settle req.identity now p).0.allowed ≡ true)

allowed_only :
    (b : Bool) (s : Shared) (status : ℕ) (why : Settle.Reason) (out : Shared × Response)
    (q : Result)
    → (if b then out else (s, refused status why)).1 ≡ answered q
    → (b ≡ true) × (out.1 ≡ answered q)
allowed_only true s status why out q e = (refl, e)
allowed_only false s status why out q e = cc

perform-HasStanding :
    (d : Deployment) (retry_max : ℕ) (script : ℕ → Attempt) (req : Request) (reservation : Option ℕ)
    (s : Shared) (q : Result)
    → (perform d retry_max script req reservation s).1 ≡ answered q
    → q.success ≡ true
    → d.has_bond_escrow ≡ true
    → HasStanding d.registration
unfolding perform
perform-HasStanding d retry_max script req reservation s q e ok bond =
    let c = attempt_settle retry_max script s.pool in
    conclude-HasStanding d req reservation c.1.pool_exhausted
      (record s { pool = Settle.give_back c.1.acquired_address c.0 }) c.1.result q e ok bond

consult-HasStanding :
    (d : Deployment) (retry_max : ℕ) (script : ℕ → Attempt) (req : Request) (now : ℕ) (s : Shared)
    (policy : Option SpendPolicy) (q : Result)
    → (consult d retry_max script req now s policy).1 ≡ answered q
    → q.success ≡ true
    → ((p : SpendPolicy) → policy ≡ some p → (check_settle req.identity now p).0.allowed ≡ true)
      × (d.has_bond_escrow ≡ true → HasStanding d.registration)
consult-HasStanding d retry_max script req now s none q e ok =
    (λ p h. cc, λ bond. perform-HasStanding d retry_max script req none s q e ok bond)
consult-HasStanding d retry_max script req now s (some p) q e ok =
    let checked = check_settle req.identity now p in
    let booked : Shared = record s { policy = some checked.1 } in
    let a =
      allowed_only checked.0.allowed booked 503 (Settle.spend_policy checked.0.reason)
        (perform d retry_max script req checked.0.reservation booked) q e in
    (
      λ r h. ap (λ m. allowed_by req now m) (sym h) ∙ a.0,
      λ bond. perform-HasStanding d retry_max script req checked.0.reservation booked q a.1 ok bond,
    )

-- A success that /settle reports was parseable, came while the service was not paused and the sponsor
-- not below its hard floor, was allowed by the spend policy if there is one, and, if a bond escrow is
-- configured, has its settlement on record there: registered now, or already.
pub run_settle_pipeline-HasStanding :
    (d : Deployment) (retry_max : ℕ) (script : ℕ → Attempt) (req : Request) (now : ℕ) (s : Shared)
    (q : Result)
    → (run_settle_pipeline d retry_max script req now s).1 ≡ answered q
    → q.success ≡ true
    → IsAdmitted d req now s.policy × (d.has_bond_escrow ≡ true → HasStanding d.registration)
unfolding run_settle_pipeline
run_settle_pipeline-HasStanding d retry_max script req now s q e ok =
    let a = passed (not req.has_body) s 400 Settle.invalid_body _ q e in
    let b = passed (not req.is_parseable) s 400 Settle.invalid_payload _ q a.1 in
    let c = passed d.is_paused s 503 Settle.service_paused _ q b.1 in
    let f =
      passed (not d.settle_allowed) s 503 Settle.sponsor_balance_low
        (consult d retry_max script req now s s.policy) q c.1 in
    let g = consult-HasStanding d retry_max script req now s s.policy q f.1 ok in
    ((ground (arith, b.0), c.0, ground (arith, f.0), g.0), g.1)
