-- ===== src/Api/Decide/Replay.antt =====
-- A repeated request to the decision endpoint.
use agent_workbench.Base.{
  ◌≡◌, refl, sym, ap, ◌∙◌, subst, Bool, true, false, not, Option, none, some, List, [], ◌∷◌, ◌==◌,
  string_eq, eq_iff, arith, if◌then◌else◌,
}
use agent_workbench.Base.Action.{Result, returned, raised, pure, gets, modify, ◌>>=◌, ◌>>◌}
use agent_workbench.Base.Dict.{lookup}
use agent_workbench.Base.Ends.{
  Ends, Met, Any1, Any, Ends-pure, Ends-raise, Ends-raise_if, Ends-bind, Ends-then, Ends-any,
  Ends-returned, Ends-look,
}
use agent_workbench.Orchestrator.Clients.{Clients}
use agent_workbench.Orchestrator.Graph.Core.{
  Effect, saved, appended, invoked, delegated, cancel_sent,
}
use agent_workbench.Orchestrator.State.{RunState, ApprovalDecision}
use agent_workbench.Security.Authorization.{AuthorizationError}
use agent_workbench.Api.Store.{
  Decided, CachedDecision, Gateway, RepositoryStore, save, append, apply_effect, apply_effects,
}
use agent_workbench.Api.Requests.{ApiError, DecideCall, Endpoint, key_text, authorized}
use agent_workbench.Api.Resume.{
  is_paused, sync, conclude_rejected, continue_approved, run_graph, resume_state, maybe_resume,
}
use agent_workbench.Api.Decide.{find_decided, reply_of, finish, decide_new, decide_cached, decide}

module _ {World : Type 0} (st : RepositoryStore) where
  apply_effect_decided :
      (e : Effect) (g : Gateway World) → (apply_effect st e g).decided ≡ g.decided
  unfolding apply_effect save append
  apply_effect_decided (saved r) g = refl
  apply_effect_decided (appended e) g = refl
  apply_effect_decided (invoked tool args timeout) g = refl
  apply_effect_decided (delegated request) g = refl
  apply_effect_decided (cancel_sent task) g = refl

  apply_effects_decided :
      (es : List Effect) (g : Gateway World) → (apply_effects st es g).decided ≡ g.decided
  unfolding apply_effects
  apply_effects_decided [] g = refl
  apply_effects_decided (e ∷ es) g =
      apply_effect_decided e (apply_effects st es g) ∙ apply_effects_decided es g

module _ (c : Clients) (d : DecideCall) where
  branch_decided :
      (paused rejected : Bool) (g h x y : Gateway c.World)
      → h.decided ≡ g.decided
      → x.decided ≡ g.decided
      → y.decided ≡ g.decided
      → (if not paused then h else if rejected then x else y).decided ≡ g.decided
  branch_decided false rejected g h x y eh ex ey = eh
  branch_decided true true g h x y eh ex ey = ex
  branch_decided true false g h x y eh ex ey = ey

  continue_decided :
      (r : RunState) (g : Gateway c.World) → (continue_approved c d r g).decided ≡ g.decided
  unfolding continue_approved run_graph
  continue_decided r g = apply_effects_decided _ _ g

  resume_state_decided :
      (r : RunState) (g : Gateway c.World) → (resume_state c d r g).decided ≡ g.decided
  unfolding resume_state conclude_rejected save
  resume_state_decided r g =
      branch_decided (is_paused (sync c d r g).current_state) (d.body.decision == "rejected") g _ _
        _ refl refl (continue_decided (sync c d r g) _)

  resume_decided_of :
      (o : Option RunState) (g : Gateway c.World)
      → (elim o as (λ _. Gateway c.World) [ none ↦ g | some r ↦ resume_state c d r g ]).decided
        ≡ g.decided
  resume_decided_of none g = refl
  resume_decided_of (some r) g = resume_state_decided r g

  maybe_resume_decided : (g : Gateway c.World) → (maybe_resume c d g).decided ≡ g.decided
  unfolding maybe_resume
  maybe_resume_decided g = resume_decided_of (lookup d.run_id g.run_states) g

  abbrev find_own : Gateway c.World → Option Decided
  find_own g = find_decided d.approval_id (key_text d.idempotency_key) g.decided

  -- The reply is cached for this request's run.
  abbrev Cached : Decided → Gateway c.World → Type 0
  Cached reply g = (find_own g ≡ some reply) × ((reply.run_id == d.run_id) ≡ true)

  found_first :
      (reply : Decided) (ds : List CachedDecision)
      → find_decided d.approval_id (key_text d.idempotency_key) (
          record { approval_id = d.approval_id; key = key_text d.idempotency_key; reply = reply }
          ∷ ds)
        ≡ some reply
  unfolding find_decided
  found_first reply ds = ground (
    arith,
    eq_iff d.approval_id d.approval_id,
    eq_iff (key_text d.idempotency_key) (key_text d.idempotency_key),
  )

  abbrev remember : Gateway c.World → Gateway c.World
  remember g = record g {
    decided =
        record {
          approval_id = d.approval_id;
          key = key_text d.idempotency_key;
          reply = reply_of c d;
        }
        ∷ g.decided;
  }

  answered-Cached :
      Ends {E = ApiError} Any1 Cached Any
        (modify remember >> (modify (maybe_resume c d) >> pure (reply_of c d)))
  unfolding modify pure ◌>>◌ ◌>>=◌ Met
  answered-Cached = record {
    at = λ g h. (
      ap (find_decided d.approval_id (key_text d.idempotency_key)) (maybe_resume_decided _)
          ∙ found_first (reply_of c d) g.decided,
      (eq_iff d.run_id d.run_id).1 refl,
    );
  }

  finish-Cached : Ends Any1 Cached Any (finish c d)
  unfolding finish
  finish-Cached = Ends-then {R = Any1} _ _ (Ends-any _) answered-Cached

  decide_new-Cached : (o : Option ApprovalDecision) → Ends Any1 Cached Any (decide_new c d o)
  unfolding decide_new
  decide_new-Cached none = Ends-raise _ (λ g h. tt)
  decide_new-Cached (some decision) = Ends-bind {R = λ _. Any1} _ _ (Ends-any _) (λ row.
      Ends-bind {R = λ _. Any1} _ _ (Ends-any _)
        (λ a. Ends-then _ _ (Ends-raise_if _ _ (λ g h. tt)) finish-Cached))

  Cached-branch :
      (b : Bool) (reply : Decided) (g : Gateway c.World) (k : Endpoint c.World Decided)
      → find_own g ≡ some reply
      → (reply.run_id == d.run_id) ≡ b
      → Ends Any1 Cached Any k
      → Met Cached Any ((if b then pure reply else k) g).0 ((if b then pure reply else k) g).1
  unfolding pure Met
  Cached-branch true reply g k found same later = (found, same)
  Cached-branch false reply g k found same later = later.at g tt

  decide_cached-Cached :
      (o : Option Decided) (g : Gateway c.World)
      → find_own g ≡ o
      → Met Cached Any (decide_cached c d o g).0 (decide_cached c d o g).1
  unfolding decide_cached
  decide_cached-Cached none g found = (decide_new-Cached _).at g tt
  decide_cached-Cached (some reply) g found =
      Cached-branch (reply.run_id == d.run_id) reply g _ found refl (decide_new-Cached _)

  decide-Cached : Ends Any1 Cached Any (decide c d)
  unfolding decide gets
  decide-Cached = Ends-then {R = Any1} _ _ (Ends-any _) (
      Ends-then {R = Any1} _ _ (Ends-any _) (
        Ends-then {R = Any1} _ _ (Ends-any _) (
          Ends-then {R = Any1} _ _ (Ends-any _) (
            Ends-then {R = Any1} _ _ (Ends-any _)
              (Ends-look _ _ (λ g h. decide_cached-Cached _ g refl))))))

-- With a cached reply, a request gets it or is refused, and changes nothing.
module _ (c : Clients) (d : DecideCall) (reply : Decided) (h : Gateway c.World)
    (held : Cached c d reply h) where
  abbrev Here : Gateway c.World → Type 0
  Here g = g ≡ h

  abbrev Again : Decided → Gateway c.World → Type 0
  Again again g = (g ≡ h) × (again ≡ reply)

  authorized-Here :
      (r : Result AuthorizationError (Unit {0}))
      → Ends Here (λ _. Here) (λ _. Here) (authorized c r)
  unfolding authorized
  authorized-Here (returned u) = Ends-pure tt (λ g e. e)
  authorized-Here (raised e) = Ends-raise _ (λ g e. e)

  given-Again :
      (b : Bool) (g : Gateway c.World) (k : Endpoint c.World Decided)
      → b ≡ true
      → g ≡ h
      → Met Again
          (λ _. Here)
          ((if b then pure reply else k) g).0
          ((if b then pure reply else k) g).1
  unfolding pure Met
  given-Again true g k same e = (e, refl)
  given-Again false g k same e = absurd (cc same)

  cached-Again :
      (o : Option Decided) (g : Gateway c.World)
      → o ≡ some reply
      → g ≡ h
      → Met Again (λ _. Here) (decide_cached c d o g).0 (decide_cached c d o g).1
  unfolding decide_cached
  cached-Again o g found e =
      subst (λ x. Met Again (λ _. Here) (decide_cached c d x g).0 (decide_cached c d x g).1)
        (sym found) (given-Again (reply.run_id == d.run_id) g _ held.1 e)

  decide-Again : Ends Here Again (λ _. Here) (decide c d)
  unfolding decide
  decide-Again = Ends-then _ _ (authorized-Here _) (
      Ends-then _ _ (Ends-raise_if _ _ (λ g e. e)) (
        Ends-then _ _ (Ends-raise_if _ _ (λ g e. e)) (
          Ends-then _ _ (Ends-raise_if _ _ (λ g e. e)) (
            Ends-then _ _ (Ends-raise_if _ _ (λ g e. e))
              (Ends-look _ _ (λ g e. cached-Again _ g (ap (find_own c d) e ∙ held.0) e))))))

both_ends :
    {W : Type 0} (r : Result ApiError Decided) (g h : Gateway W) (reply : Decided)
    → Met (λ again t. (t ≡ h) × (again ≡ reply)) (λ e t. t ≡ h) r g
    → (g ≡ h) × ((again : Decided) → r ≡ returned again → again ≡ reply)
unfolding Met
both_ends (returned x) g h reply met =
    (met.0, λ again same. (let e : x ≡ again = cc same in sym e ∙ met.1))
both_ends (raised e) g h reply met = (met, λ again same. absurd (cc same))

-- Once a decision on an approval has been answered, a request with the same approval, key and run
-- changes nothing, whoever makes it and whatever it decides: it is refused or gets the first
-- answer. The tenant of the request is not compared with that of the first.
pub decide-repeated :
    (c : Clients) (d d' : DecideCall) (g : Gateway c.World) (reply : Decided)
    → d'.run_id ≡ d.run_id
    → d'.approval_id ≡ d.approval_id
    → key_text d'.idempotency_key ≡ key_text d.idempotency_key
    → (decide c d g).0 ≡ returned reply
    → let h = (decide c d g).1 in
      ((decide c d' h).1 ≡ h)
      × ((again : Decided) → (decide c d' h).0 ≡ returned again → again ≡ reply)
decide-repeated c d d' g reply same_run same_approval same_key answered =
    let h = (decide c d g).1 in
    let (found, own) = Ends-returned (decide c d) g reply (decide-Cached c d) tt answered in
    let held : Cached c d' reply h = (
      ap (λ k. find_decided d'.approval_id k h.decided) same_key
          ∙ (ap (λ a. find_decided a (key_text d.idempotency_key) h.decided) same_approval ∙ found),
      ap (λ r. reply.run_id == r) same_run ∙ own,
    ) in
    both_ends (decide c d' h).0 (decide c d' h).1 h reply
      ((decide-Again c d' reply h held).at h refl)
