-- ===== src/Validation/Verdict/Untouched.antt =====
-- Which steps of src/validation/handler.rs leave the budgets alone.
use executor_node.Prelude.{
  ℕ, ◌≡◌, refl, ap, ◌∙◌, inl, inr, Bool, true, false, not, List, Option, none, some, Bytes,
  Bytes_eq, arith, if◌then◌else◌, ok, err, Result-cases,
}
use executor_node.Map.{get}
use executor_node.Auth.CrossWallet.{Hasher, check_cooldown}
use executor_node.Auth.Ip.{IpAddr, IpAddr_eq}
use executor_node.Challenge.Registry.{validate_and_consume_exact}
use executor_node.Integrator.Tracker.{refund}
use executor_node.Integrator.WalletAttempts.{refund_on_success}
use executor_node.Validation.Admission.{
  Step, check_probing_block, check_cross_wallet_cooldown, refund_infrastructure_failure, request_ip,
}
use executor_node.Validation.Admission.Laws.{IsKept, attempts_at}
use executor_node.Validation.Handler.{
  Services, Call, Prepared, Response, andthen, forward, forwarded, reply, consume_nonce,
  check_projection, user_agent_of,
}
use executor_node.Validation.Intent.{ProjectionIntent}
use executor_node.Validation.Verdict.{screen, screen_footprint, screen_signals}
use executor_node.State.{AppState}

-- The two budgets are the same.
abbrev pub IsUntouched : AppState → AppState → Type 0
IsUntouched s s' = (s'.tracker ≡ s.tracker) × (s'.wallet_attempts ≡ s.wallet_attempts)

pub untouched-IsKept :
    (s t t' : AppState) (now : ℕ) (k w : Bytes)
    → IsUntouched t t'
    → IsKept s t now k w
    → IsKept s t' now k w
untouched-IsKept s t t' now k w u h =
    (ap (λ x. get k x.state) u.0 ∙ h.0, ap (λ x. attempts_at x now w) u.1 ∙ h.1)

-- A refund of untouched budgets.
pub refund-IsUntouched :
    (s s' : AppState) (k w : Bytes)
    → IsUntouched s s'
    → IsUntouched (refund_infrastructure_failure s k w) (refund_infrastructure_failure s' k w)
unfolding refund_infrastructure_failure
refund-IsUntouched s s' k w u = (ap (λ t. refund t k) u.0, ap (λ t. refund_on_success t w) u.1)

pub probing-IsUntouched :
    (s : AppState) (now : ℕ) (ip : IpAddr) → IsUntouched s (check_probing_block s now ip).0
unfolding check_probing_block
probing-IsUntouched s now ip = ground arith

-- Steps that touch no budget, one after the other.
pub andthen-IsUntouched :
    {A B : Type 0} (s : AppState) (p : Step A) (f : AppState → A → Step B)
    → IsUntouched s p.0
    → ((s' : AppState) (a : A) → IsUntouched s' (f s' a).0)
    → IsUntouched s (andthen p f).0
andthen-IsUntouched s (s', err e) f h g = h
andthen-IsUntouched s (s', ok a) f h g = let k = g s' a in (k.0 ∙ h.0, k.1 ∙ h.1)

pub either-IsUntouched :
    {A : Type 0} (s : AppState) (b : Bool) (p q : Step A)
    → IsUntouched s p.0
    → IsUntouched s q.0
    → IsUntouched s (if b then p else q).0
either-IsUntouched s true p q h k = h
either-IsUntouched s false p q h k = k

pub cooldown-IsUntouched :
    (hash : Hasher) (s : AppState) (now : ℕ) (ip : IpAddr) (ua w : Bytes)
    → IsUntouched s (check_cross_wallet_cooldown hash s now ip ua w).0
unfolding check_cross_wallet_cooldown
cooldown-IsUntouched hash s now ip ua w =
    elim (Result-cases (check_cooldown hash s.cross_wallet_cooldown now ip ua w).1) [
      | inl (u, passed) ↦ rw (passed, check_cross_wallet_cooldown) (refl, refl)
      | inr (n, held) ↦ rw (held, check_cross_wallet_cooldown) (ground arith)
    ]

pub consume-IsUntouched :
    (services : Services) (s : AppState) (now : ℕ) (w : Bytes) (nonce : Option Bytes)
    → IsUntouched s (consume_nonce services s now w nonce).0
unfolding consume_nonce
consume-IsUntouched services s now w none = (refl, refl)
consume-IsUntouched services s now w (some nonce) =
    elim (Result-cases (validate_and_consume_exact s.challenge_registry now w nonce).1) [
      | inl (u, passed) ↦ rw (passed, consume_nonce) (refl, refl)
      | inr (e, refused) ↦ rw (refused, consume_nonce) (refl, refl)
    ]

module _ (services : Services) where
  pub screen-IsUntouched :
      (s : AppState) (now : ℕ) (c : Call) → IsUntouched s (screen services s now c).0
  unfolding screen screen_footprint screen_signals
  screen-IsUntouched s now c =
      let ip = request_ip services.parse_ip c.real_ip_header c.peer in
      andthen-IsUntouched s (check_probing_block s now ip) (screen_footprint services now c)
        (probing-IsUntouched s now ip)
        λ s1 _.
          andthen-IsUntouched s1
            (check_cross_wallet_cooldown services.hasher s1 now ip (user_agent_of c)
              c.request.wallet_id)
            (screen_signals services c)
            (cooldown-IsUntouched services.hasher s1 now ip (user_agent_of c) c.request.wallet_id)
            λ s2 _. (refl, refl)

  pub reply-IsUntouched :
      (s : AppState) (o : Option Response) → IsUntouched s (reply services s o).0
  reply-IsUntouched s none = (refl, refl)
  reply-IsUntouched s (some r) = (refl, refl)

  pub forwarded-IsUntouched :
      (s : AppState) (c : Call) (p : Prepared) (intent : ProjectionIntent) (recent : List ℕ)
      → IsUntouched s (forwarded services s c p intent recent).0
  unfolding forwarded
  forwarded-IsUntouched s c p intent recent =
      either-IsUntouched s (not s.has_validator) _ _ (refl, refl) (reply-IsUntouched s _)

  pub forward-IsUntouched :
      (s : AppState) (now : ℕ) (c : Call) (p : Prepared)
      → IsUntouched s (forward services s now c p).0
  unfolding forward
  forward-IsUntouched s now c p = elim (Result-cases (check_projection services c p.wallet)) [
    | inr (e, refused) ↦ rw (refused, forward) (refl, refl)
    | inl ((intent, recent), passed) ↦
        rw (passed, forward)
          (andthen-IsUntouched s (consume_nonce services s now p.wallet p.nonce)
            (λ s' _. forwarded services s' c p intent recent)
            (consume-IsUntouched services s now p.wallet p.nonce)
            λ s' _. forwarded-IsUntouched s' c p intent recent)
  ]
