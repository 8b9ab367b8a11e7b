-- ===== src/Pki/Revocation.antt =====
-- src/pki/RevocationChecker.cpp. Times are nanoseconds of the steady clock.
use pqc_api.Prelude.{
  ℕ, ◌-◌, ◌/◌, ◌≡◌, refl, ◌∙◌, inl, inr, Option, none, some, ltb, if◌then◌else◌, Bytes, str_eq,
  str_eq_refl, Bool-cases,
}
use pqc_api.External.X509.{X509}
use pqc_api.External.Ocsp.{Ocsp}
use pqc_api.Pki.Certificate.{Certificate, get_serial_number}
use pqc_api.Pki.Ocsp.{CertStatus, check_status}

pub record CachedStatus : Type 0 where
  pub status : CertStatus
  pub cached_at : ℕ

-- The constructor's default for `cache_ttl_seconds`.
abbrev pub default_cache_ttl_seconds : ℕ
default_cache_ttl_seconds = 300

abbrev pub Cache : Type 0
Cache = Bytes → Option CachedStatus

-- `cache_[serial] = entry`
abbrev pub insert : Bytes → CachedStatus → Cache → Cache
insert serial entry cache key = if str_eq key serial then some entry else cache key

abbrev pub age_seconds : ℕ → CachedStatus → ℕ
age_seconds now entry = (now - entry.cached_at) / 1000000000

module _ (X : X509) (C : Ocsp X) (responder_url : Bytes) (cache_ttl_seconds : ℕ) where
  pub record Checker : Type 0 where
    pub cache : Cache
    pub net : C.Net

  -- The entry of a serial, if `isCacheValid` holds of it.
  unfoldable pub valid_entry : ℕ → Option CachedStatus → Option CachedStatus
  valid_entry now none = none
  valid_entry now (some entry) =
      if ltb (age_seconds now entry) cache_ttl_seconds then some entry else none

  -- The query after a cache miss; `done` is the time when the answer is stored.
  unfoldable pub ask : ℕ → Certificate X → Certificate X → Checker → CertStatus × Checker
  ask done cert issuer s =
      let (status, net') = check_status X C responder_url cert issuer s.net in
      let entry : CachedStatus = record { status = status; cached_at = done } in
      (status, record { cache = insert (get_serial_number X cert) entry s.cache; net = net' })

  -- `RevocationChecker::checkCert`
  unfoldable pub check_cert : ℕ → ℕ → Certificate X → Certificate X → Checker → CertStatus × Checker
  check_cert now done cert issuer s = elim (valid_entry now (s.cache (get_serial_number X cert))) [
    | some entry ↦ (entry.status, s)
    | none ↦ ask done cert issuer s
  ]

  unfoldable pub clear_cache : Checker → Checker
  clear_cache s = record s { cache = λ key. none }

  check_cert_hit :
      (now done : ℕ) (cert issuer : Certificate X) (s : Checker) (entry : CachedStatus)
      → valid_entry now (s.cache (get_serial_number X cert)) ≡ some entry
      → check_cert now done cert issuer s ≡ (entry.status, s)
  unfolding check_cert
  check_cert_hit now done cert issuer s entry e = rw (e, check_cert)

  check_cert_miss :
      (now done : ℕ) (cert issuer : Certificate X) (s : Checker)
      → valid_entry now (s.cache (get_serial_number X cert)) ≡ none
      → check_cert now done cert issuer s ≡ ask done cert issuer s
  unfolding check_cert
  check_cert_miss now done cert issuer s e = rw (e, check_cert)

  abbrev answer_at : ℕ → CertStatus × Checker → CachedStatus
  answer_at done (status, s) = record { status = status; cached_at = done }

  -- What a query leaves in the cache.
  valid_entry-ask :
      (now done : ℕ) (cert issuer : Certificate X) (s : Checker)
      → valid_entry now ((ask done cert issuer s).1.cache (get_serial_number X cert)) ≡ (
          if ltb ((now - done) / 1000000000) cache_ttl_seconds
          then some (answer_at done (ask done cert issuer s))
          else none)
  unfolding ask valid_entry
  valid_entry-ask now done cert issuer s = rw (str_eq_refl (get_serial_number X cert)) refl

  -- After a query whose answer was stored at the time `done`, a check of the same certificate at
  -- the time `now` repeats that answer and asks nobody if the whole seconds between the two are
  -- below the time to live; otherwise it asks the responder again.
  pub check_cert-ask :
      (now done done' : ℕ) (cert issuer : Certificate X) (s : Checker)
      → check_cert now done' cert issuer (ask done cert issuer s).1 ≡ (
          if ltb ((now - done) / 1000000000) cache_ttl_seconds
          then ask done cert issuer s
          else ask done' cert issuer (ask done cert issuer s).1)
  check_cert-ask now done done' cert issuer s =
      let left = valid_entry-ask now done cert issuer s in
      elim (Bool-cases (ltb ((now - done) / 1000000000) cache_ttl_seconds)) [
        | inl fresh ↦ rw fresh (
            check_cert_hit now done' cert issuer (ask done cert issuer s).1
              (answer_at done (ask done cert issuer s)) (left ∙ rw fresh refl))
        | inr stale ↦ rw stale (
            check_cert_miss now done' cert issuer (ask done cert issuer s).1 (left ∙ rw stale refl))
      ]
