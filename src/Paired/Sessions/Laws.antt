-- ===== src/Paired/Sessions/Laws.antt =====
-- What the untimed calls of src/paired/mod.rs change, and what they pass on.
use executor_node.Prelude.{
  ℕ, ◌≡◌, refl, sym, subst, inl, inr, ◌⊎◌, true, false, Option, some, Bytes, bytes, Bytes_eq, ◌==◌,
  arith, nat_eq, is_some_and, ok, err, Bool-cases, Option-cases, Result-cases,
}
use executor_node.Integrator.WalletAttempts.{check}
use executor_node.Validation.Admission.{Step, check_probing_block, request_ip}
use executor_node.Validation.Handler.{andthen}
use executor_node.Validation.Verdict.Untouched.{
  IsUntouched, andthen-IsUntouched, probing-IsUntouched,
}
use executor_node.Paired.Upstream.{post_json}
use executor_node.Paired.Sessions.{
  Relay, Origin, OpenRequest, CommitRequest, CueRequest, Forwarded, PairedResponse, passed_on,
  not_found, is_server_error, is_unlisted, relay, pass_on, check_attempts, open_admitted,
  open_handler, commit_handler, cue_handler, round_response_bytes,
}
use executor_node.State.{AppState}

module _ (services : Relay) where
  relay-state : (f : Forwarded) (s : AppState) → (relay services f s tt).0 ≡ s
  unfolding relay pass_on
  relay-state f s =
      elim (Result-cases (post_json services.from_slice s (services.post f) round_response_bytes)) [
        | inr (fault, unsent) ↦ rw (unsent, relay) refl
        | inl (reply, sent) ↦ elim (Option-cases reply.body) [
          | inl garbled ↦ rw (sent, garbled, relay, pass_on) refl
          | inr (body, parsed) ↦ elim (Bool-cases (is_server_error reply.status)) [
            | inl fault ↦ rw (sent, parsed, fault, relay, pass_on) refl
            | inr fine ↦ rw (sent, parsed, fine, relay, pass_on) refl
          ]
        ]
      ]

  relay-IsUntouched : (f : Forwarded) (s : AppState) → IsUntouched s (relay services f s tt).0
  relay-IsUntouched f s = subst (λ x. IsUntouched s x) (sym (relay-state f s)) (refl, refl)

  check_attempts-state :
      (now : ℕ) (w : Bytes) (s : AppState) → (check_attempts services now w s tt).0 ≡ s
  unfolding check_attempts
  check_attempts-state now w s = elim (Result-cases (check s.wallet_attempts now w)) [
    | inr (n, out) ↦ rw (out, check_attempts) refl
    | inl (u, left) ↦ rw (left, check_attempts) refl
  ]

  -- What the client sees of a reply: no fault of the service, and a wait from 1 to 300 seconds.
  relay-ok :
      (f : Forwarded) (s : AppState) (r : PairedResponse services.Json)
      → (relay services f s tt).1 ≡ ok r
      → (status : ℕ) × (wait : Option ℕ) × (body : services.Json) × (r ≡ passed_on status wait body)
        × (is_server_error status ≡ false)
  unfolding relay pass_on
  relay-ok f s r h =
      elim (Result-cases (post_json services.from_slice s (services.post f) round_response_bytes)) [
        | inr (fault, unsent) ↦ absurd (ground (arith, rw (unsent, relay) at h))
        | inl (reply, sent) ↦ elim (Option-cases reply.body) [
          | inl garbled ↦ absurd (ground (arith, rw (sent, garbled, relay, pass_on) at h))
          | inr (body, parsed) ↦ elim (Bool-cases (is_server_error reply.status)) [
            | inl fault ↦ absurd (ground (arith, rw (sent, parsed, fault, relay, pass_on) at h))
            | inr fine ↦ (
              reply.status,
              reply.retry_after,
              body,
              ground (arith, rw (sent, parsed, fine, relay, pass_on) at h),
              fine,
            )
          ]
        ]
      ]

  -- A session that opens: every check has passed, and the service answered without a fault.
  pub record IsOpened (s : AppState) (now : ℕ) (request : OpenRequest)
      (r : PairedResponse services.Json) : Type 0 where
    pub wallet : Bytes
    pub status : ℕ
    pub wait : Option ℕ
    pub body : services.Json
    pub known : services.from_str request.wallet ≡ some wallet
    pub listed : is_unlisted s wallet ≡ false
    pub version : is_some_and request.protocol_version (λ v. nat_eq v 2) ≡ true
    pub tier : (request.tier == bytes "trace") ≡ true
    pub has_attempts : check s.wallet_attempts now wallet ≡ ok tt
    pub answer : r ≡ passed_on status wait body
    pub no_fault : is_server_error status ≡ false

  open_admitted-IsUntouched :
      (s : AppState) (now : ℕ) (nonce w : Bytes) (o : Origin) (text_ : Bytes)
      → IsUntouched s (open_admitted services s now nonce w o text_).0
  unfolding open_admitted
  open_admitted-IsUntouched s now nonce w o text_ =
      let ip = request_ip services.parse_ip o.real_ip_header o.peer in
      andthen-IsUntouched s (andthen (check_probing_block s now ip) (check_attempts services now w))
        (relay services _)
        (andthen-IsUntouched s (check_probing_block s now ip) (check_attempts services now w)
          (probing-IsUntouched s now ip)
          λ s' u. subst (λ x. IsUntouched s' x) (sym (check_attempts-state now w s')) (refl, refl))
        λ s' u. relay-IsUntouched _ s'

  check_attempts-ok :
      (now : ℕ) (w : Bytes) (s : AppState) (u : Unit {0})
      → (check_attempts services now w s tt).1 ≡ ok u
      → check s.wallet_attempts now w ≡ ok tt
  unfolding check_attempts
  check_attempts-ok now w s u h = elim (Result-cases (check s.wallet_attempts now w)) [
    | inr (n, out) ↦ absurd (ground (arith, rw (out, check_attempts) at h))
    | inl (u, left) ↦ left
  ]

  -- Two gates that both pass.
  both_pass :
      {A B : Type 0} (p : Step A) (f : AppState → A → Step B) (b : B)
      → (andthen p f).1 ≡ ok b
      → (a : A) × (p.1 ≡ ok a) × ((f p.0 a).1 ≡ ok b)
  both_pass (s, ok a) f b h = (a, refl, h)
  both_pass (s, err e) f b h = absurd (ground arith)

  open_admitted-ok :
      (s : AppState) (now : ℕ) (nonce w : Bytes) (o : Origin) (text_ : Bytes)
      (r : PairedResponse services.Json)
      → (open_admitted services s now nonce w o text_).1 ≡ ok r
      → (check s.wallet_attempts now w ≡ ok tt)
        × ((status : ℕ) × (wait : Option ℕ) × (body : services.Json) × (r
              ≡ passed_on status wait body)
            × (is_server_error status ≡ false))
  unfolding open_admitted
  open_admitted-ok s now nonce w o text_ r h =
      let ip = request_ip services.parse_ip o.real_ip_header o.peer in
      let probed = check_probing_block s now ip in
      let (u, gates, sent) =
        both_pass (andthen probed (check_attempts services now w)) (relay services _) r h in
      let (u', free, left) = both_pass probed (check_attempts services now w) u gates in
      (
        subst (λ t. check t now w ≡ ok tt) ((probing-IsUntouched s now ip).1)
            (check_attempts-ok now w probed.0 u left),
        relay-ok _ (andthen probed (check_attempts services now w)).0 r sent,
      )

  -- Opening a session costs nothing, whatever it ends with: both budgets are as before. It is answered only with a bare 404 to a wallet that is off the list, or with what the service says without a fault, and then the wallet is known and listed, the request is for protocol 2 and the trace tier, and the wallet has an attempt left.
  pub open_handler_lem :
      (s : AppState) (now : ℕ) (nonce : Bytes) (o : Origin) (request : OpenRequest)
      → IsUntouched s (open_handler services s now nonce o request).0
        × ((r : PairedResponse services.Json)
            → (open_handler services s now nonce o request).1 ≡ ok r
            → (r ≡ not_found) ⊎ IsOpened s now request r)
  unfolding open_handler
  open_handler_lem s now nonce o request = elim (Option-cases (services.from_str request.wallet)) [
    | inl garbled ↦ rw (garbled, open_handler) ((refl, refl), λ r h. absurd (ground (arith, h)))
    | inr (w, known) ↦ elim (Bool-cases (is_unlisted s w)) [
      | inl unlisted ↦
          rw (known, unlisted, open_handler) ((refl, refl), λ r h. inl (ground (arith, h)))
      | inr listed ↦ elim (Bool-cases (is_some_and request.protocol_version (λ v. nat_eq v 2))) [
        | inr old ↦
            rw (known, listed, old, open_handler) ((refl, refl), λ r h. absurd (ground (arith, h)))
        | inl version ↦ elim (Bool-cases (request.tier == bytes "trace")) [
          | inr other ↦
              rw (known, listed, version, other, open_handler)
                ((refl, refl), λ r h. absurd (ground (arith, h)))
          | inl tier ↦
              rw (known, listed, version, tier, open_handler)
                (
                  open_admitted-IsUntouched s now nonce w o request.wallet,
                  λ r h.
                      let (left, (status, wait, body, answer, fine)) =
                        open_admitted-ok s now nonce w o request.wallet r h in
                      inr (record {
                        wallet = w;
                        status = status;
                        wait = wait;
                        body = body;
                        known = known;
                        listed = listed;
                        version = version;
                        tier = tier;
                        has_attempts = left;
                        answer = answer;
                        no_fault = fine;
                      }),
                )
        ]
      ]
    ]
  ]

  probed_relay :
      (s : AppState) (now : ℕ) (o : Origin) (f : Forwarded)
      → IsUntouched s
          (andthen
            (check_probing_block s now (request_ip services.parse_ip o.real_ip_header o.peer))
            (relay services f)).0
  probed_relay s now o f =
      let ip = request_ip services.parse_ip o.real_ip_header o.peer in
      andthen-IsUntouched s (check_probing_block s now ip) (relay services f)
        (probing-IsUntouched s now ip) λ s' u. relay-IsUntouched f s'

  -- The other two calls touch no budget either.
  pub commit_handler-IsUntouched :
      (s : AppState) (now : ℕ) (o : Origin) (request : CommitRequest)
      → IsUntouched s (commit_handler services s now o request).0
  unfolding commit_handler
  commit_handler-IsUntouched s now o request =
      elim (Option-cases (services.from_str request.wallet_id)) [
        | inl garbled ↦ rw (garbled, commit_handler) (refl, refl)
        | inr (w, known) ↦ rw (known, commit_handler) (probed_relay s now o _)
      ]

  pub cue_handler-IsUntouched :
      (s : AppState) (now : ℕ) (o : Origin) (request : CueRequest)
      → IsUntouched s (cue_handler services s now o request).0
  unfolding cue_handler
  cue_handler-IsUntouched s now o request =
      elim (Option-cases (services.from_str request.wallet_id)) [
        | inl garbled ↦ rw (garbled, cue_handler) (refl, refl)
        | inr (w, known) ↦ elim (Bool-cases (is_unlisted s w)) [
          | inl unlisted ↦ rw (known, unlisted, cue_handler) (refl, refl)
          | inr listed ↦ rw (known, listed, cue_handler) (probed_relay s now o _)
        ]
      ]
