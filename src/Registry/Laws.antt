-- ===== src/Registry/Laws.antt =====
-- What every move keeps.
use open_ctrl.Types.{Master}
use open_ctrl.Base.{
  ℕ, ◌≤◌, ◌<◌, ◌≡◌, ◌∙◌, sym, ap, refl, inl, inr, ◌⊎◌, subst, ==_refl, List, arith, String, true,
  false, Bool-cases, some, lookup, insert, erase, lookup-insert, lookup-erase, eq_iff, IsMap,
  insert-IsMap, erase-IsMap, ==_iff, ◌==◌,
}
use open_ctrl.Instance.Lifecycle.Consistent.{is_running}
use open_ctrl.Registry.{Move, quiet, edit, keep, again, forget, make, Moves, still, also}

-- No id stands twice in the map, and each stands for an object with that id, which is in use.
pub record IsRegistry (m : Master) : Type 0 where
  pub unique : IsMap m.instances
  pub named :
      (id : String) (p : ℕ) → lookup id m.instances ≡ some p → ((m.heap p).id ≡ id) × (p < m.fresh)

-- What a later state keeps of an earlier one.
pub record Follows (m n : Master) : Type 0 where
  pub gone : (r : ℕ) → r < m.fresh → (m.heap r).deleted ≡ true → (n.heap r).deleted ≡ true
  pub fresh : m.fresh ≤ n.fresh
  pub closed : n.periodic_done ≡ m.periodic_done
  pub ids : (r : ℕ) → r < m.fresh → (n.heap r).id ≡ (m.heap r).id
  pub calm :
      m.periodic_done ≡ true
      → (r : ℕ) → r < m.fresh
      → is_running (m.heap r).status ≡ false
      → is_running (n.heap r).status ≡ false

pub insert_found :
    (j id : String) (q p : ℕ) (m : List (String × ℕ))
    → lookup id (insert j q m) ≡ some p
    → ((j ≡ id) × (q ≡ p)) ⊎ (lookup id m ≡ some p)
insert_found j id q p m e = ground (arith, lookup-insert j id q m, eq_iff j id, e)

erase_found :
    (j id : String) (p : ℕ) (m : List (String × ℕ))
    → lookup id (erase j m) ≡ some p
    → lookup id m ≡ some p
erase_found j id p m e = ground (arith, lookup-erase j id m, eq_iff j id, e)

module _ {Stores : ℕ → Type 0} {Forgets : String → Type 0} where
  pub Moves-trans :
      {m n o : Master}
      → Moves Stores Forgets m n
      → Moves Stores Forgets n o
      → Moves Stores Forgets m o
  Moves-trans a still = a
  Moves-trans a (also b s) = also (Moves-trans a b) s

  Move-IsRegistry : {m n : Master} → Move Stores Forgets m n → IsRegistry m → IsRegistry n
  Move-IsRegistry {m} (quiet h i d f) r = record {
    unique = rw i r.unique;
    named = λ id p e. rw h (
      (r.named id p (ap (lookup id) (sym i) ∙ e)).0,
      omega (arith, (r.named id p (ap (lookup id) (sym i) ∙ e)).1),
    );
  }
  Move-IsRegistry {m} (edit q inst e c g) r = record {
    unique = r.unique;
    named = λ id p l. elim (Bool-cases (q == p)) [
      | inl s ↦
          rw s (
            e ∙ ap (λ k. (m.heap k).id) ((==_iff q p).0 s) ∙ (r.named id p l).0,
            (r.named id p l).1,
          )
      | inr s ↦ rw s (r.named id p l)
    ];
  }
  Move-IsRegistry {m} (keep q s b) r = record {
    unique = insert-IsMap (m.heap q).id q m.instances r.unique;
    named = λ id p l. elim (insert_found (m.heap q).id id q p m.instances l) [
      | inl (j, x) ↦ (ap (λ k. (m.heap k).id) (sym x) ∙ j, subst (λ k. k < m.fresh) x b)
      | inr l' ↦ r.named id p l'
    ];
  }
  Move-IsRegistry {m} (again j q e) r = record {
    unique = insert-IsMap j q m.instances r.unique;
    named = λ id p l. elim (insert_found j id q p m.instances l) [
      | inl (i, x) ↦ r.named id p (ap (λ k. lookup k m.instances) (sym i) ∙ e ∙ ap some x)
      | inr l' ↦ r.named id p l'
    ];
  }
  Move-IsRegistry {m} (forget j f) r = record {
    unique = erase-IsMap j m.instances r.unique;
    named = λ id p l. r.named id p (erase_found j id p m.instances l);
  }
  Move-IsRegistry {m} (make inst s e) r = record {
    unique = insert-IsMap inst.id m.fresh m.instances r.unique;
    named = λ id p l. elim (insert_found inst.id id m.fresh p m.instances l) [
      | inl (i, x) ↦ rw x (rw (==_refl p) (i, omega (arith, x)))
      | inr l' ↦ let (i, b) = r.named id p l' in (ground (arith, i, b), omega (arith, b))
    ];
  }

  Move-Follows : {m n : Master} → Move Stores Forgets m n → Follows m n
  Move-Follows {m} (quiet h i d f) = record {
    fresh = f;
    closed = d;
    ids = λ r b. rw h refl;
    calm = λ c r b s. rw h s;
    gone = λ r b s. rw h s;
  }
  Move-Follows {m} (edit q inst e c g) = record {
    fresh = omega arith;
    closed = refl;
    ids = λ r b. elim (Bool-cases (q == r)) [
      | inl s ↦ rw s (e ∙ ap (λ k. (m.heap k).id) ((==_iff q r).0 s))
      | inr s ↦ rw s refl
    ];
    calm = λ d r b s. elim (Bool-cases (q == r)) [
      | inl t ↦ rw t (c d (ap (λ k. is_running (m.heap k).status) ((==_iff q r).0 t) ∙ s))
      | inr t ↦ rw t s
    ];
    gone = λ r b s. elim (Bool-cases (q == r)) [
      | inl t ↦ rw t (g (ap (λ k. (m.heap k).deleted) ((==_iff q r).0 t) ∙ s))
      | inr t ↦ rw t s
    ];
  }
  Move-Follows {m} (keep q s b) = record {
    fresh = omega arith;
    closed = refl;
    ids = λ r b. refl;
    calm = λ d r b s. s;
    gone = λ r b s. s;
  }
  Move-Follows {m} (again j q e) = record {
    fresh = omega arith;
    closed = refl;
    ids = λ r b. refl;
    calm = λ d r b s. s;
    gone = λ r b s. s;
  }
  Move-Follows {m} (forget j f) = record {
    fresh = omega arith;
    closed = refl;
    ids = λ r b. refl;
    calm = λ d r b s. s;
    gone = λ r b s. s;
  }
  Move-Follows {m} (make inst s e) = record {
    fresh = omega arith;
    closed = refl;
    ids = λ r b. ground arith;
    calm = λ d r b t. ground (arith, t, b);
    gone = λ r b t. ground (arith, t, b);
  }

  pub Moves-IsRegistry : {m n : Master} → Moves Stores Forgets m n → IsRegistry m → IsRegistry n
  Moves-IsRegistry still r = r
  Moves-IsRegistry (also a s) r = Move-IsRegistry s (Moves-IsRegistry a r)

  pub Moves-Follows : {m n : Master} → Moves Stores Forgets m n → Follows m n
  Moves-Follows still = record {
    fresh = omega arith;
    closed = refl;
    ids = λ r b. refl;
    calm = λ d r b s. s;
    gone = λ r b s. s;
  }
  Moves-Follows {m} (also {n} {o} a s) =
      let f = Moves-Follows a in
      let g = Move-Follows s in
      record {
        fresh = omega (arith, f.fresh, g.fresh);
        closed = g.closed ∙ f.closed;
        ids = λ r b. g.ids r (omega (arith, b, f.fresh)) ∙ f.ids r b;
        calm = λ d r b s. g.calm (f.closed ∙ d) r (omega (arith, b, f.fresh)) (f.calm d r b s);
        gone = λ r b s. g.gone r (omega (arith, b, f.fresh)) (f.gone r b s);
      }

Move-stay :
    {m n : Master}
    → Move (λ _. ⊥) (λ _. ⊥) m n
    → (id : String) (p : ℕ) → lookup id m.instances ≡ some p
    → lookup id n.instances ≡ some p
Move-stay (quiet h i d f) id p e = ap (lookup id) i ∙ e
Move-stay (edit q inst j c g) id p e = e
Move-stay (keep q s b) id p e = absurd s
Move-stay {m} (again j q f) id p e =
    ground (arith, lookup-insert j id q m.instances, eq_iff j id, e, f)
Move-stay (forget j f) id p e = absurd f
Move-stay {m} (make inst s f) id p e =
    ground (arith, lookup-insert inst.id id m.fresh m.instances, eq_iff inst.id id, e, f)

-- Moves that store no object anew and forget no id leave every id where it is.
pub Moves-stay :
    {m n : Master}
    → Moves (λ _. ⊥) (λ _. ⊥) m n
    → (id : String) (p : ℕ) → lookup id m.instances ≡ some p
    → lookup id n.instances ≡ some p
Moves-stay still id p e = e
Moves-stay (also {n} a s) id p e = Move-stay s id p (Moves-stay a id p e)
