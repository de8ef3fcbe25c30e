-- ===== src/Archive/Store/Immutable.antt =====
-- Objects against a bucket that never changes an object once it is created.
use mipsorcu.Archive.Backend.{S3BackendError, overwrite_rejected}
use mipsorcu.Archive.Retry.{run_with_backoff}
use mipsorcu.Archive.Retry.Attempts.{
  Attempts, succeeds, gives_up, retries, run_with_backoff-Attempts,
}
use mipsorcu.Archive.Store.{
  Bucket, Response, is_success, put_outcome, get_outcome, put_object_bytes_strict,
  get_object_bytes_with_retry, compare_stored, verify_existing_object_bytes, put_object_bytes,
}
use mipsorcu.Prelude.{
  ap, ◌∙◌, ℕ, Bytes, bytes_eq_iff, Text, Option, some, none, Result, ok, ◌>>=◌, >>=-eq-ok, ◌≡◌,
  true, arith, Result-cases, inl, inr, List,
}

-- What `If-None-Match: *` and the object lock promise: a created object holds the body of its put, and
-- a read gives what is held.
pub record IsImmutable (bucket : Bucket) (held : Text → Option Bytes) : Type 0 where
  pub created :
      (n i : ℕ) (key : Text) (body : Bytes) (r : Response)
      → bucket.put n i key body ≡ ok r
      → is_success r.status ≡ true
      → held key ≡ some body
  pub read :
      (n i : ℕ) (key : Text) (r : Response) (bytes : Bytes)
      → bucket.get n i key ≡ ok r
      → is_success r.status ≡ true
      → r.body ≡ some bytes
      → held key ≡ some bytes

module _ {ℓ} {T : Type ℓ} (max_retries base : ℕ) (operation : ℕ → Result S3BackendError T) where
  answered :
      {i : ℕ} {result : Result S3BackendError T} {delays : List ℕ} (value : T)
      → Attempts max_retries base operation i result delays
      → result ≡ ok value
      → (j : ℕ) × (operation j ≡ ok value)
  answered value (succeeds {i} b p) q = (i, p ∙ q)
  answered value (gives_up b p r) q = absurd cc
  answered value (retries p r h) q = answered value h q

  -- an answer that is no error is the answer of one attempt
  run_with_backoff-answered :
      (value : T)
      → (run_with_backoff max_retries base operation).0 ≡ ok value
      → (j : ℕ) × (operation j ≡ ok value)
  run_with_backoff-answered value q =
      answered value (run_with_backoff-Attempts max_retries base operation) q

module _ (bucket : Bucket) (held : Text → Option Bytes) (immutable : IsImmutable bucket held)
    (max_retries base : ℕ) where
  put_object_bytes_strict-held :
      (n : ℕ) (key : Text) (body : Bytes)
      → put_object_bytes_strict bucket max_retries base n key body ≡ ok tt
      → held key ≡ some body
  unfolding put_object_bytes_strict put_outcome
  put_object_bytes_strict-held n key body h =
      let (j, p) =
        run_with_backoff-answered max_retries base
          (λ i. bucket.put n i key body >>= λ r. put_outcome r) tt h in
      let (r, q, s) = >>=-eq-ok (bucket.put n j key body) _ p in
      immutable.created n j key body r q (ground (arith, s))

  pub get_object_bytes_with_retry-held :
      (n : ℕ) (key : Text) (bytes : Bytes)
      → get_object_bytes_with_retry bucket max_retries base n key ≡ ok (some bytes)
      → held key ≡ some bytes
  unfolding get_object_bytes_with_retry get_outcome
  get_object_bytes_with_retry-held n key bytes h =
      let (j, p) =
        run_with_backoff-answered max_retries base (λ i. bucket.get n i key >>= λ r. get_outcome r)
          (some bytes) h in
      let (r, q, s) = >>=-eq-ok (bucket.get n j key) _ p in
      immutable.read n j key r bytes q (ground (arith, s)) (ground (arith, s))

  verify_existing_object_bytes-held :
      (n : ℕ) (key : Text) (body : Bytes)
      → verify_existing_object_bytes bucket max_retries base n key body ≡ ok tt
      → held key ≡ some body
  unfolding verify_existing_object_bytes compare_stored
  verify_existing_object_bytes-held n key body h =
      elim (Result-cases (get_object_bytes_with_retry bucket max_retries base n key)) [
        | inl (none, p) ↦ absurd (ground (arith, p, h))
        | inl (some bytes, p) ↦
            let same : bytes ≡ body = ground (arith, p, h, bytes_eq_iff bytes body) in
            get_object_bytes_with_retry-held n key bytes p ∙ ap some same
        | inr (e, p) ↦ absurd (ground (arith, p, h))
      ]

  -- On an immutable bucket, a put that returns `Ok` leaves the object in the bucket with these very
  -- bytes: it was created by one of the attempts, or it stood there and was read back as equal.
  pub put_object_bytes-held :
      (n : ℕ) (key : Text) (body : Bytes)
      → put_object_bytes bucket max_retries base n key body ≡ ok tt
      → held key ≡ some body
  unfolding put_object_bytes
  put_object_bytes-held n key body h =
      elim (Result-cases (put_object_bytes_strict bucket max_retries base n key body)) [
        | inl (u, p) ↦ put_object_bytes_strict-held n key body p
        | inr (overwrite_rejected, p) ↦
            verify_existing_object_bytes-held n key body (ground (arith, p, h))
        | inr (_, p) ↦ absurd (ground (arith, p, h))
      ]
