-- ===== src/Telemetry/Apply/Effect.antt =====
-- internal/master/runtime.go: how far telemetry reaches, and how often it is tried.
use open_ctrl.Types.{Instance, Master, put, update}
use open_ctrl.Base.{
  inl, inr, Bool-cases, elem, Option, none, some, ◌⊎◌, true, String, List, [], ◌∷◌, ℕ, zero, suc,
  ◌≤◌, ◌≡◌, ◌^◌, refl, ap, ◌∙◌, arith, false, leb, max_int32, ==_refl, ◌==◌, if◌then◌else◌, ℤ, pos,
  negsuc,
}
use open_ctrl.Event.Publish.{send_sse_event, publish_event}
use open_ctrl.Telemetry.Counter.{clamp_signed_int32}
use open_ctrl.Instance.Lifecycle.Monitor.{runs_cmd}
use open_ctrl.Telemetry.Counter.Tally.{Reading, report, read, read_all}
use open_ctrl.Telemetry.Apply.{
  is_closed, apply_telemetry_hello, clear_active_telemetry, TelemetrySnapshot, telemetry_current,
  apply_snapshot, apply_telemetry_snapshot, next_backoff,
}

-- The numbers of active connections fit an int32.
pub record HasInt32 (inst : Instance) : Type 0 where
  pub tcps_fit : inst.tcps ≤ max_int32
  pub udps_fit : inst.udps ≤ max_int32

clamp-le : (value : ℤ) → clamp_signed_int32 value ≤ max_int32
unfolding clamp_signed_int32
clamp-le (pos n) = ground arith
clamp-le (negsuc n) = omega arith

-- The command is no more the one of the instance at `p`, that is deleted, or it is being stopped.
abbrev pub IsStale : (p cmd : ℕ) → Master → Type 0
IsStale p cmd m =
    (runs_cmd (m.heap p).cmd cmd ≡ false)
    ⊎ ((m.heap p).deleted ≡ true)
    ⊎ (is_closed (m.heap p).stopped_ch m ≡ true)

abbrev pub IsCurrent : (p cmd : ℕ) → Master → Type 0
IsCurrent p cmd m =
    (runs_cmd (m.heap p).cmd cmd ≡ true)
    × ((m.heap p).deleted ≡ false)
    × (is_closed (m.heap p).stopped_ch m ≡ false)

stale-refused : (p cmd : ℕ) (m : Master) → IsStale p cmd m → telemetry_current p cmd m ≡ false
unfolding telemetry_current
stale-refused p cmd m h = ground (arith, h)

current-taken : (p cmd : ℕ) (m : Master) → IsCurrent p cmd m → telemetry_current p cmd m ≡ true
unfolding telemetry_current
current-taken p cmd m h = ground (arith, h)

-- Snapshots that arrive one after another.
unfoldable pub apply_all : List TelemetrySnapshot → ℕ → ℕ → Master → Master
apply_all [] p cmd m = m
apply_all (value ∷ values) p cmd m = apply_all values p cmd (apply_telemetry_snapshot value p cmd m)

-- The reports of one direction.
abbrev pub reports : (TelemetrySnapshot → ℕ) → List TelemetrySnapshot → List Reading
reports field [] = []
reports field (value ∷ values) = report (field value) ∷ reports field values

-- The meters of the instance at `p` have read their own directions of the snapshots, and nothing
-- else has changed but the numbers of active connections.
pub record IsCounted (values : List TelemetrySnapshot) (p : ℕ) (m n : Master) : Type 0 where
  pub tcp_rx : (n.heap p).tcp_rx ≡ read_all (reports (λ v. v.tcp_upload) values) (m.heap p).tcp_rx
  pub tcp_tx : (n.heap p).tcp_tx ≡ read_all (reports (λ v. v.tcp_download) values) (m.heap p).tcp_tx
  pub udp_rx : (n.heap p).udp_rx ≡ read_all (reports (λ v. v.udp_upload) values) (m.heap p).udp_rx
  pub udp_tx : (n.heap p).udp_tx ≡ read_all (reports (λ v. v.udp_download) values) (m.heap p).udp_tx
  pub fits : HasInt32 (n.heap p)
  pub others : (q : ℕ) → (p == q) ≡ false → n.heap q ≡ m.heap q
  pub status : (n.heap p).status ≡ (m.heap p).status
  pub cmd : (n.heap p).cmd ≡ (m.heap p).cmd
  pub url : (n.heap p).url ≡ (m.heap p).url
  pub names : n.instances ≡ m.instances
  pub disk : n.disk ≡ m.disk

-- A greeting, the end of a connection and snapshots change nothing.
pub record IsIgnored (values : List TelemetrySnapshot) (p cmd : ℕ) (m : Master) : Type 0 where
  pub snapshots : apply_all values p cmd m ≡ m
  pub greeting : (id : String) → apply_telemetry_hello id p cmd m ≡ m
  pub silence : clear_active_telemetry p cmd m ≡ m

same-is_closed : (o : Option ℕ) (m n : Master) → n.closed ≡ m.closed → is_closed o n ≡ is_closed o m
same-is_closed none m n e = refl
same-is_closed (some ch) m n e = ap (elem ch) e

module _ (p cmd : ℕ) where
  -- The state behind a snapshot that is taken.
  abbrev taken : TelemetrySnapshot → Master → Master
  taken value m = send_sse_event update p (put p (apply_snapshot value (m.heap p)) m)

  heap-taken :
      (value : TelemetrySnapshot) (m : Master)
      → (taken value m).heap p ≡ apply_snapshot value (m.heap p)
  unfolding send_sse_event publish_event
  heap-taken value m = rw (==_refl p) refl

  taken-IsCurrent :
      (value : TelemetrySnapshot) (m : Master) → IsCurrent p cmd m → IsCurrent p cmd (taken value m)
  unfolding send_sse_event publish_event apply_snapshot
  taken-IsCurrent value m (r, d, c) = (
    rw (==_refl p) r,
    rw (==_refl p) d,
    ap (λ i. is_closed i.stopped_ch (taken value m)) (heap-taken value m)
        ∙ same-is_closed (m.heap p).stopped_ch m (taken value m) refl
        ∙ c,
  )

  all-ignored :
      (values : List TelemetrySnapshot) (m : Master)
      → IsStale p cmd m
      → apply_all values p cmd m ≡ m
  unfolding apply_telemetry_snapshot apply_all
  all-ignored [] m h = refl
  all-ignored (value ∷ values) m h = rw (stale-refused p cmd m h) (all-ignored values m h)

  all-IsCounted :
      (values : List TelemetrySnapshot) (m : Master)
      → HasInt32 (m.heap p)
      → IsCurrent p cmd m
      → IsCounted values p m (apply_all values p cmd m)
  unfolding apply_telemetry_snapshot apply_all read_all read apply_snapshot send_sse_event
      publish_event
  all-IsCounted [] m f h = record {
    tcp_rx = refl;
    tcp_tx = refl;
    udp_rx = refl;
    udp_tx = refl;
    fits = f;
    others = λ q e. refl;
    status = refl;
    cmd = refl;
    url = refl;
    names = refl;
    disk = refl;
  }
  all-IsCounted (value ∷ values) m f h =
      let here = heap-taken value m in
      let fitting : HasInt32 ((taken value m).heap p) =
        rw (==_refl p)
          (record { tcps_fit = clamp-le value.tcp_active; udps_fit = clamp-le value.udp_active }) in
      let later = all-IsCounted values (taken value m) fitting (taken-IsCurrent value m h) in
      rw (current-taken p cmd m h) (record {
        tcp_rx =
            later.tcp_rx ∙ ap (λ i. read_all (reports (λ v. v.tcp_upload) values) i.tcp_rx) here;
        tcp_tx =
            later.tcp_tx ∙ ap (λ i. read_all (reports (λ v. v.tcp_download) values) i.tcp_tx) here;
        udp_rx =
            later.udp_rx ∙ ap (λ i. read_all (reports (λ v. v.udp_upload) values) i.udp_rx) here;
        udp_tx =
            later.udp_tx ∙ ap (λ i. read_all (reports (λ v. v.udp_download) values) i.udp_tx) here;
        fits = later.fits;
        others = λ q e. later.others q e ∙ rw e refl;
        status = later.status ∙ ap (λ i. i.status) here;
        cmd = later.cmd ∙ ap (λ i. i.cmd) here;
        url = later.url ∙ ap (λ i. i.url) here;
        names = later.names;
        disk = later.disk;
      })

  taken_or_not : (m : Master) → IsCurrent p cmd m ⊎ IsStale p cmd m
  taken_or_not m = elim (Bool-cases (runs_cmd (m.heap p).cmd cmd)) [
    | inr r ↦ inr (inl r)
    | inl r ↦ elim (Bool-cases (m.heap p).deleted) [
      | inl d ↦ inr (inr (inl d))
      | inr d ↦ elim (Bool-cases (is_closed (m.heap p).stopped_ch m)) [
        | inl c ↦ inr (inr (inr c))
        | inr c ↦ inl (r, d, c)
      ]
    ]
  ]

  -- Snapshots of the command that the instance runs, if it is not deleted and not being stopped, one
  -- after another, have each of the four meters of traffic read its own direction of each, as a new
  -- report of the process; the numbers of active connections, if they fit an int32 before, go on to
  -- do so; and the other instances, its own status, command and URL, the map and the files stay as
  -- they were. If the command is another one, or the instance is deleted or being stopped, then
  -- snapshots change nothing at all, nor do a greeting and the end of the connection.
  pub apply_all_lem :
      (values : List TelemetrySnapshot) (m : Master)
      → HasInt32 (m.heap p)
      → (IsCurrent p cmd m × IsCounted values p m (apply_all values p cmd m))
        ⊎ (IsStale p cmd m × IsIgnored values p cmd m)
  unfolding apply_telemetry_hello clear_active_telemetry
  apply_all_lem values m f = elim (taken_or_not m) [
    | inl h ↦ inl (h, all-IsCounted values m f h)
    | inr h ↦ inr (
      h,
      record {
        snapshots = all-ignored values m h;
        greeting = λ id. rw (stale-refused p cmd m h) refl;
        silence = rw (stale-refused p cmd m h) refl;
      },
    )
  ]

-- The delay after `n` attempts that failed, in seconds.
unfoldable pub delay : ℕ → ℕ
delay zero = 1
delay (suc n) = next_backoff (delay n)

late : (n : ℕ) → delay (suc (suc (suc (suc (suc n))))) ≡ 30
unfolding delay next_backoff
late zero = refl
late (suc n) = ap next_backoff (late n)

-- The delay doubles from one second on, up to thirty seconds.
pub delay_lem : (n : ℕ) → delay n ≡ (if leb 5 n then 30 else 2 ^ n)
unfolding delay next_backoff
delay_lem zero = refl
delay_lem (suc zero) = refl
delay_lem (suc (suc zero)) = refl
delay_lem (suc (suc (suc zero))) = refl
delay_lem (suc (suc (suc (suc zero)))) = refl
delay_lem (suc (suc (suc (suc (suc n))))) = late n ∙ ground arith
