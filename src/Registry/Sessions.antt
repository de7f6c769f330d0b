-- ===== src/Registry/Sessions.antt =====
-- manager/registry.go: session tokens, from register to heartbeat.
use phimtor.Base.{
  ℕ, ◌<◌, true, String, some, lookup, arith, String_discrete, ◌≡◌, Option_elim, if_elim, ◌∙◌, ap,
}
use phimtor.Base.Assoc.{lookup-insert}
use phimtor.Registry.{
  Instance, Registry, unchanged, same_string, register, register_new, register_known, new_instance,
  heartbeat,
}

-- The instance that a registered id stands for is its own, and no pointer is handed out twice.
pub record Named (r : Registry) : Type 0 where
  pub id_of :
      (id : String) (p : ℕ) → lookup String_discrete id r.instances ≡ some p → (r.heap p).id ≡ id
  pub allocated :
      (id : String) (p : ℕ) → lookup String_discrete id r.instances ≡ some p → p < r.next

register_new-Named : (i : Instance) (r : Registry) → Named r → Named (register_new i r)
unfolding register_new
register_new-Named i r v = record {
  id_of = λ id p e. ground (
    arith,
    lookup-insert String_discrete i.id id r.next r.instances,
    v.id_of id p,
    v.allocated id p,
  );
  allocated = λ id p e.
      ground (arith, lookup-insert String_discrete i.id id r.next r.instances, v.allocated id p);
}

register_known-Named :
    (p : ℕ) (meta : String) (now : ℕ) (r : Registry) → Named r → Named (register_known p meta now r)
unfolding register_known
register_known-Named p meta now r v = record {
  id_of = λ id q e. ground (arith, v.id_of id q);
  allocated = v.allocated;
}

-- The registered object of an id is the one that a registration with these URLs and this control
-- token would leave alone, and its session token is the given one.
abbrev Serves : String → String → String → String → Registry × String → Type 0
Serves id internal public control (r, mine) =
    (p : ℕ) × (lookup String_discrete id r.instances ≡ some p)
    × ((r.heap p).session_token ≡ mine)
    × (unchanged internal public control (r.heap p) ≡ true)

heartbeat_of :
    (id presented : String) (later p : ℕ) (r : Registry)
    → lookup String_discrete id r.instances ≡ some p
    → (heartbeat id presented later r).1 ≡ same_string (r.heap p).session_token presented
unfolding heartbeat
heartbeat_of id presented later p r e = ground arith

same_self : (s : String) → same_string s s ≡ true
same_self s = ground arith

module _ (id internal public control meta token : String) (now : ℕ) (r : Registry) where
  -- A registration keeps the registry's ids in order: what an id stands for carries that id, and its
  -- pointer has been handed out.
  pub register-Named : Named r → Named (register id internal public control meta token now r).0
  unfolding register
  register-Named v =
      Option_elim (λ (x : Registry × String). Named x.0) (lookup String_discrete id r.instances) _ _
        (λ _. register_new-Named _ r v)
        (λ p _.
          if_elim (λ (x : Registry × String). Named x.0)
            (unchanged internal public control (r.heap p)) _ _
            (λ _. register_known-Named p meta now r v) (λ _. register_new-Named _ r v))

  register_new-Serves :
      Serves id internal public control
        (register_new (new_instance id internal public control token meta now) r, token)
  unfolding register_new new_instance unchanged
  register_new-Serves = (
    r.next,
    ground (arith, lookup-insert String_discrete id id r.next r.instances),
    ground arith,
    ground arith,
  )

  register_known-Serves :
      (p : ℕ)
      → lookup String_discrete id r.instances ≡ some p
      → unchanged internal public control (r.heap p) ≡ true
      → Serves id internal public control (register_known p meta now r, (r.heap p).session_token)
  unfolding register_known unchanged
  register_known-Serves p e h = (p, e, ground arith, ground arith)

  register-Serves :
      Serves id internal public control (register id internal public control meta token now r)
  unfolding register
  register-Serves =
      Option_elim (Serves id internal public control) (lookup String_discrete id r.instances) _ _
        (λ _. register_new-Serves)
        (λ p e.
          if_elim (Serves id internal public control) (unchanged internal public control (r.heap p))
            _ _ (register_known-Serves p e) (λ _. register_new-Serves))

  -- After `Register`, a heartbeat of that id succeeds exactly with the token that it returned.
  pub register-heartbeat :
      (presented : String) (later : ℕ)
      → (heartbeat id presented later (register id internal public control meta token now r).0).1
        ≡ same_string (register id internal public control meta token now r).1 presented
  register-heartbeat presented later =
      let (p, e, t, _) = register-Serves in
      heartbeat_of id presented later p _ e ∙ ap (λ s. same_string s presented) t

  -- A streamer that registers again with the same URLs and control token gets the same session token
  -- back, whatever its self-report, the time and the random token at hand.
  pub register-register :
      (meta' token' : String) (later : ℕ)
      → (register id internal public control meta' token' later
          (register id internal public control meta token now r).0).1
        ≡ (register id internal public control meta token now r).1
  register-register meta' token' later =
      let (p, e, t, same) = register-Serves in known_token p _ e same ∙ t
    where
      known_token :
          (p : ℕ) (q : Registry)
          → lookup String_discrete id q.instances ≡ some p
          → unchanged internal public control (q.heap p) ≡ true
          → (register id internal public control meta' token' later q).1 ≡ (q.heap p).session_token
      known_token p q e same = unfold register in rw (e, register) (rw same)
