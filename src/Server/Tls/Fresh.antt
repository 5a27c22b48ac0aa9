-- ===== src/Server/Tls/Fresh.antt =====
-- internal/master/tls.go: the certificate that a handshake gets is not older than an hour.
use open_ctrl.Base.{ℕ, ◌+◌, ◌-◌, ◌≤◌, ◌<◌, ◌≡◌, refl, arith, some, List, [], ◌∷◌, leb, if_cases}
use open_ctrl.Server.Tls.{CertCache, Handshake, reload_interval, reload, get_certificate}

-- Handshakes one after another from `time` on, whose loads give what the files hold when they end.
abbrev pub IsLoading : (ℕ → ℕ) → ℕ → List Handshake → Type 0
IsLoading content time [] = Unit
IsLoading content time (h ∷ hs) =
    (time ≤ h.tested)
    × (h.tested ≤ h.locked)
    × (h.locked ≤ h.reloaded)
    × (h.loaded ≡ some (content h.reloaded))
    × IsLoading content h.reloaded hs

-- The certificate was in the files at the last reload, which is no later than `time`.
pub record IsLoaded (content : ℕ → ℕ) (time : ℕ) (c : CertCache) : Type 0 where
  pub from_files : c.cached_cert ≡ content c.last_reload
  pub past : c.last_reload ≤ time

-- A certificate that was in the files less than an hour before `time`, or since.
pub record IsFresh (content : ℕ → ℕ) (time : ℕ) (cert : ℕ) : Type 0 where
  pub read_at : ℕ
  pub from_files : cert ≡ content read_at
  pub recent : time < read_at + reload_interval

module _ (content : ℕ → ℕ) where
  step-IsLoaded :
      (h : Handshake) (c : CertCache)
      → h.locked ≤ h.reloaded
      → h.tested ≤ h.locked
      → c.last_reload ≤ h.tested
      → h.loaded ≡ some (content h.reloaded)
      → c.cached_cert ≡ content c.last_reload
      → IsLoaded content h.reloaded (get_certificate h c).1
  unfolding get_certificate reload
  step-IsLoaded h c l t p e f =
      let kept : IsLoaded content h.reloaded c = record {
        from_files = f;
        past = omega (arith, l, t, p);
      } in
      if_cases (IsLoaded content h.reloaded) (leb reload_interval (h.tested - c.last_reload)) _ _
        (λ _.
          if_cases (IsLoaded content h.reloaded) (leb reload_interval (h.locked - c.last_reload)) _
            _ (λ _. record { from_files = rw e refl; past = omega arith }) (λ _. kept))
        (λ _. kept)

  step-IsFresh :
      (h : Handshake) (c : CertCache)
      → h.locked ≤ h.reloaded
      → h.tested ≤ h.locked
      → c.last_reload ≤ h.tested
      → h.loaded ≡ some (content h.reloaded)
      → c.cached_cert ≡ content c.last_reload
      → IsFresh content h.tested (get_certificate h c).0
  unfolding get_certificate reload
  step-IsFresh h c l t p e f =
      if_cases (λ (d : CertCache). IsFresh content h.tested d.cached_cert)
        (leb reload_interval (h.tested - c.last_reload)) _ _
        (λ due.
          if_cases (λ (d : CertCache). IsFresh content h.tested d.cached_cert)
            (leb reload_interval (h.locked - c.last_reload)) _ _
            (λ _. record {
              read_at = h.reloaded;
              from_files = rw e refl;
              recent = omega (arith, l, t);
            })
            (λ not_due. absurd (ground (arith, due, not_due, t))))
        (λ not_due. record {
          read_at = c.last_reload;
          from_files = f;
          recent = ground (arith, not_due);
        })

  -- Every handshake gets a fresh certificate.
  abbrev pub AllFresh : List Handshake → CertCache → Type 0
  AllFresh [] c = Unit
  AllFresh (h ∷ hs) c =
      IsFresh content h.tested (get_certificate h c).0 × AllFresh hs (get_certificate h c).1

  -- Every handshake gets a certificate that was in the files less than an hour before it, or since.
  -- Conditions: the handshakes come one after another, every load of the files succeeds, and the
  -- certificate at first is that of the last reload.
  pub get_certificate-AllFresh :
      (hs : List Handshake) (time : ℕ) (c : CertCache)
      → IsLoading content time hs
      → IsLoaded content time c
      → AllFresh hs c
  get_certificate-AllFresh [] time c g i = tt
  get_certificate-AllFresh (h ∷ hs) time c (a, t, l, e, gs) i =
      let past : c.last_reload ≤ h.tested = omega (arith, i.past, a) in
      (
        step-IsFresh h c l t past e i.from_files,
        get_certificate-AllFresh hs h.reloaded _ gs (step-IsLoaded h c l t past e i.from_files),
      )
