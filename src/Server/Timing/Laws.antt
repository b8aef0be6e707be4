-- ===== src/Server/Timing/Laws.antt =====
-- What the time of a response shows of src/timing.rs.
use executor_node.Prelude.{
  ℕ, ◌+◌, ◌-◌, ◌≤◌, ◌≡◌, refl, inl, inr, false, Bytes, arith, ltb, ok, is_some_and, Bool-cases,
}
use executor_node.Server.Timing.{
  BodyPolicy, Timed, Upload, min_duration, min_duration_middleware, handler_min_duration,
}
use executor_node.Error.{AppError}

-- The time at which a clamped request ends.
pub min_duration-max :
    {T : Type 0} (least start : ℕ) (future : ℕ → Timed T)
    → start ≤ (future start).0
    → ((min_duration least start future).1 ≡ (future start).1)
      × (start + least ≤ (min_duration least start future).0)
      × ((future start).0 ≤ start + least → (min_duration least start future).0 ≡ start + least)
unfolding min_duration
min_duration-max least start future h = elim (Bool-cases (ltb ((future start).0 - start) least)) [
  | inl short ↦ rw (short, min_duration) (refl, ground arith, λ k. ground arith)
  | inr long ↦ rw (long, min_duration) (refl, ground arith, λ k. ground arith)
]

-- The time of a response of a timed route, for a body that arrives in time and can be read: it comes no earlier than four seconds after the last byte of the body, however slow the upload was, and its content is what the handler answers. All that take at most these four seconds, the refusals of the rate limiter and of the quota among them, respond at the same time.
pub min_duration_middleware_lem :
    {T : Type 0} (policy : BodyPolicy) (entered : ℕ) (upload : Upload) (f : AppError → T)
    (next : Bytes → ℕ → Timed T) (body : Bytes)
    → is_some_and policy.read_deadline (λ deadline. ltb deadline upload.takes) ≡ false
    → upload.read policy.max_bytes ≡ ok body
    → entered + upload.takes ≤ (next body (entered + upload.takes)).0
    → ((min_duration_middleware policy entered upload f next).1
        ≡ (next body (entered + upload.takes)).1)
      × (entered + upload.takes + handler_min_duration
          ≤ (min_duration_middleware policy entered upload f next).0)
      × ((next body (entered + upload.takes)).0 ≤ entered + upload.takes + handler_min_duration
          → (min_duration_middleware policy entered upload f next).0
            ≡ entered + upload.takes + handler_min_duration)
unfolding min_duration_middleware
min_duration_middleware_lem policy entered upload f next body in_time read later =
    rw (in_time, read, min_duration_middleware)
      (min_duration-max handler_min_duration (entered + upload.takes) (next body) later)
