-- ===== src/Paired/Finalize/Untouched.antt =====
-- Which steps of src/paired/finalize.rs leave the budgets alone.
use executor_node.Prelude.{ℕ, refl, inl, inr, Bytes, Result-cases}
use executor_node.Validation.Admission.{check_probing_block, check_cross_wallet_cooldown}
use executor_node.Validation.Handler.{Services, identity_intent}
use executor_node.Validation.Intent.{receipt_purpose}
use executor_node.Validation.Verdict.Untouched.{
  IsUntouched, andthen-IsUntouched, probing-IsUntouched, cooldown-IsUntouched,
}
use executor_node.Paired.Upstream.{post_json}
use executor_node.Paired.Finalize.{session_body, finalize_response_bytes}
use executor_node.Paired.Finalize.Handler.{
  SessionCall, Bodies, session_agent, session_ip, session_signals, session_footprint,
  session_screen, forward_session,
}
use executor_node.State.{AppState}

module _ (services : Services) (bodies : Bodies) where
  pub session_screen-IsUntouched :
      (s : AppState) (now : ℕ) (c : SessionCall)
      → IsUntouched s (session_screen services bodies s now c).0
  unfolding session_screen session_footprint session_signals
  session_screen-IsUntouched s now c =
      let ip = session_ip services bodies c in
      andthen-IsUntouched s (check_probing_block s now ip) (session_footprint services bodies now c)
        (probing-IsUntouched s now ip)
        λ s1 _.
          andthen-IsUntouched s1
            (check_cross_wallet_cooldown services.hasher s1 now ip (session_agent c)
              c.request.wallet_id)
            (session_signals services bodies c)
            (cooldown-IsUntouched services.hasher s1 now ip (session_agent c) c.request.wallet_id)
            λ s2 _. (refl, refl)

  pub forward_session-IsUntouched :
      (s : AppState) (c : SessionCall) (w : Bytes)
      → IsUntouched s (forward_session services bodies s c w).0
  unfolding forward_session
  forward_session-IsUntouched s c w =
      let version = c.request.projection_version in
      elim (Result-cases (identity_intent services w version c.request.baseline_reset)) [
        | inr (e, refused) ↦ rw (refused, forward_session) (refl, refl)
        | inl ((intent, recent), known) ↦
            let body =
              session_body c.request (receipt_purpose intent version) recent
                (session_ip services bodies c) (session_agent c) in
            let answer = post_json bodies.from_slice s (bodies.post body) finalize_response_bytes in
            elim (Result-cases answer) [
              | inr (fault, unsent) ↦ rw (known, unsent, forward_session) (refl, refl)
              | inl (reply, sent) ↦ rw (known, sent, forward_session) (refl, refl)
            ]
      ]
