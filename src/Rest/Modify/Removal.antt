-- ===== src/Rest/Modify/Removal.antt =====
-- internal/master/rest.go: what `handleDeleteInstance` leaves behind.
use open_ctrl.Types.{stopped, Master, put}
use open_ctrl.Env.{Env, Wait}
use open_ctrl.Base.{
  ℕ, ◌≡◌, refl, arith, String, true, not, none, some, List, if_cases, str_eq, erased, ==_refl,
  insert, lookup, ap, ◌∙◌,
}
use open_ctrl.Event.Publish.{send_sse_event, publish_event}
use open_ctrl.State.Save.{save_state_async}
use open_ctrl.Instance.Snapshot.{current_instance, find_instance}
use open_ctrl.Instance.Lifecycle.Start.{start_instance_locked}
use open_ctrl.Instance.Lifecycle.Stop.{stop_instance_locked}
use open_ctrl.Instance.Lifecycle.Ending.{stop_stops}
use open_ctrl.Rest.Common.{Response, api_key_id, still_stored}
use open_ctrl.Rest.Modify.{
  handle_delete_instance, remove_instance, handle_instance_detail, dispatch, delete_method,
}
use open_ctrl.Registry.{edit, again, still, also}
use open_ctrl.Registry.Laws.{IsRegistry, Moves-IsRegistry, Moves-Follows}
use open_ctrl.Registry.Lifecycle.{Leads, WaitLeads, stop-Leads}

pub start-Gone :
    (env : Env) (p : ℕ) (m : Master) → (m.heap p).deleted ≡ true → start_instance_locked env p m ≡ m
unfolding start_instance_locked
start-Gone env p m h = rw h (if_cases (λ n. n ≡ m) m.periodic_done _ _ (λ _. refl) (λ _. refl))

-- The instance at `p` is removed: its id is unknown, it is stopped and marked as deleted.
pub record IsRemoved (id : String) (p : ℕ) (m : Master) : Type 0 where
  pub unknown : find_instance id m ≡ none
  pub at_rest : (m.heap p).status ≡ stopped
  pub marked : (m.heap p).deleted ≡ true

module _ (env : Env) (w : Wait) (k : WaitLeads w) (id : String) (p : ℕ) (m : Master)
    (r : IsRegistry m) (e : lookup id m.instances ≡ some p) where
  remove_instance-IsRemoved : IsRemoved id p (remove_instance env w id p m).1
  unfolding remove_instance save_state_async send_sse_event publish_event find_instance
  remove_instance-IsRemoved =
      let q : Master = record (put p (record (m.heap p) { deleted = true }) m) {
        instances = insert id p m.instances;
      } in
      let begun : Leads m q =
        also
          (also still (edit p (record (m.heap p) { deleted = true }) refl (λ d s. s) (λ d. refl)))
          (again id p e) in
      let ended = stop-Leads env w k p q (Moves-IsRegistry begun r) (r.named id p e).1 in
      record {
        unknown = erased id (stop_instance_locked env w p q).instances;
        at_rest = stop_stops env w p q;
        marked = (Moves-Follows ended).gone p (r.named id p e).1 (rw (==_refl p) refl);
      }

  current : current_instance p m ≡ p
  unfolding current_instance
  current =
      let found : lookup (m.heap p).id m.instances ≡ some p =
        ap (λ i. lookup i m.instances) (r.named id p e).0 ∙ e in
      rw (current_instance, found) refl

  abbrev pub Removes : Response × Master → Type 0
  Removes a = a.0.code ≡ 204 → IsRemoved id p a.1

  handle_delete-Removes : Removes (handle_delete_instance env w id p m)
  unfolding handle_delete_instance still_stored
  handle_delete-Removes = rw current (
      if_cases Removes (str_eq id api_key_id) _ _ (λ _ h. absurd (omega arith))
        λ _.
          if_cases Removes (not (still_stored id p m)) _ _ (λ _ h. absurd (omega arith))
            λ _.
              if_cases Removes (m.heap p).deleted _ _ (λ _ h. absurd (omega arith))
                (λ _ _. remove_instance-IsRemoved))

  pub detail-Removes :
      (random : List ℕ) → Removes (handle_instance_detail env w random delete_method id m)
  unfolding handle_instance_detail dispatch find_instance
  detail-Removes random =
      if_cases Removes (str_eq id "") _ _ (λ _ h. absurd (omega arith))
        λ _.
          if_cases Removes (str_eq id "/") _ _ (λ _ h. absurd (omega arith))
            (λ _. rw e handle_delete-Removes)
