-- ===== src/Siem/Forwarder/Failures.antt =====
-- The failure state over a run of forwards, and the codes that leave the forwarder.
use mipsorcu.Crates.{OffsetDateTime}
use mipsorcu.DeliveryLog.{Spawn}
use mipsorcu.Siem.Buffer.{Serde}
use mipsorcu.Siem.Event.{SiemEvent}
use mipsorcu.Siem.Forwarder.{
  clear, record_failure, handle_send_failure, SiemForwarder, SiemSinkError, sink_error_code,
  forward, backend_failed, invalid_response,
}
use mipsorcu.Prelude.{
  false, ◌∙◌, is_ok, not, Bool, all, if◌then◌else◌, Option-cases, Result-cases, true, codes, Option,
  none, some, Result, err, List, [], ◌∷◌, ◌≡◌, refl, arith, starts_with, Bool-cases, inl, inr,
}

-- Whatever the sink's error is, the code that is reported of it starts with `siem_`.
pub sink_error_code-siem :
    (e : SiemSinkError) → starts_with (sink_error_code e) (codes "siem_") ≡ true
unfolding sink_error_code starts_with
sink_error_code-siem (backend_failed code) = elim (Bool-cases (starts_with code (codes "siem_"))) [
  | inl p ↦ rw (p, p) refl
  | inr p ↦ ground arith
]
sink_error_code-siem (invalid_response reason) = refl

-- A call of `forward`: its time, what became of the task, the sink's answer, the event.
pub record Call : Type 0 where
  pub now : OffsetDateTime
  pub spawn : Spawn
  pub answer : Result SiemSinkError (Unit {0})
  pub event : SiemEvent

abbrev pub forward_all : Serde → List Call → SiemForwarder → SiemForwarder
forward_all serde [] f = f
forward_all serde (call ∷ calls) f =
    forward_all serde calls (forward serde call.now call.spawn call.answer call.event f).1

abbrev pub refused : Call → Bool
refused call = not (is_ok call.answer)

-- the calls after the last one that the sink accepted
abbrev pub since_accepted : List Call → List Call
since_accepted [] = []
since_accepted (call ∷ calls) =
    let later = since_accepted calls in
    if all refused calls then (if refused call then call ∷ calls else calls) else later

abbrev pub first_time : List Call → Option OffsetDateTime
first_time [] = none
first_time (call ∷ calls) = some call.now

abbrev or_else : Option OffsetDateTime → Option OffsetDateTime → Option OffsetDateTime
or_else none other = other
or_else (some t) other = some t

or_else-some :
    (since : Option OffsetDateTime) (t : OffsetDateTime) (other : Option OffsetDateTime)
    → or_else (or_else since (some t)) other ≡ or_else since (some t)
or_else-some none t other = refl
or_else-some (some s) t other = refl

module _ (serde : Serde) where
  forward-refused :
      (now : OffsetDateTime) (spawn : Spawn) (e : SiemSinkError) (event : SiemEvent)
      (f : SiemForwarder)
      → (forward serde now spawn (err e) event f).1.failure_since
        ≡ or_else f.failure_since (some now)
  unfolding forward handle_send_failure record_failure
  forward-refused now spawn e event f = elim (Option-cases f.failure_since) [
    | inl p ↦ rw p refl
    | inr (t, p) ↦ rw p refl
  ]

  refused_step :
      (call : Call) (calls : List Call) (f : SiemForwarder) (e : SiemSinkError)
      → call.answer ≡ err e
      → or_else
          (forward serde call.now call.spawn call.answer call.event f).1.failure_since
          (first_time calls)
        ≡ or_else f.failure_since (some call.now)
  refused_step call calls f e q =
      rw (q, forward-refused call.now call.spawn e call.event f)
        (or_else-some f.failure_since call.now (first_time calls))

  all_refused :
      (calls : List Call) (f : SiemForwarder)
      → all refused calls ≡ true
      → (forward_all serde calls f).failure_since ≡ or_else f.failure_since (first_time calls)
  all_refused [] f p = elim (Option-cases f.failure_since) [
    | inl q ↦ rw q refl
    | inr (t, q) ↦ rw q refl
  ]
  all_refused (call ∷ calls) f p = elim (Result-cases call.answer) [
    | inl (u, q) ↦ absurd (ground (arith, q))
    | inr (e, q) ↦
        let after : SiemForwarder =
          (forward serde call.now call.spawn call.answer call.event f).1 in
        all_refused calls after (ground (arith, q)) ∙ refused_step call calls f e q
  ]

  some_accepted :
      (calls : List Call) (f : SiemForwarder)
      → all refused calls ≡ false
      → (forward_all serde calls f).failure_since ≡ first_time (since_accepted calls)
  unfolding forward
  some_accepted [] f p = cc
  some_accepted (call ∷ calls) f p = elim (Bool-cases (all refused calls)) [
    | inl a ↦ elim (Result-cases call.answer) [
      | inl (u, q) ↦ rw (a, q) (all_refused calls (clear f) a)
      | inr (e, q) ↦ absurd (ground (arith, q))
    ]
    | inr a ↦
        rw a (some_accepted calls (forward serde call.now call.spawn call.answer call.event f).1 a)
  ]

  since_accepted-all_refused :
      (calls : List Call) → all refused calls ≡ true → since_accepted calls ≡ calls
  since_accepted-all_refused [] p = refl
  since_accepted-all_refused (call ∷ calls) p = ground arith

  -- Over a run of calls of `forward`, whatever the sink and the buffer answer, `failure_since` is the
  -- time of the first call after the last one that the sink accepted, and `none` if there is none.
  pub failure_since-since_accepted :
      (calls : List Call) (f : SiemForwarder)
      → f.failure_since ≡ none
      → (forward_all serde calls f).failure_since ≡ first_time (since_accepted calls)
  failure_since-since_accepted calls f p = elim (Bool-cases (all refused calls)) [
    | inl a ↦ all_refused calls f a ∙ rw (p, since_accepted-all_refused calls a) refl
    | inr a ↦ some_accepted calls f a
  ]
