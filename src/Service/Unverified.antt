-- ===== src/Service/Unverified.antt =====
-- glassbox/app/decision_service.py: the entry points for a caller that is not verified.
use glassbox_agentic_governa.Prelude.{
  ℕ, ◌≡◌, refl, ap, ◌∙◌, String, true, false, List, [], ◌∷◌, if◌then◌else◌, ◌==◌, string_eq, inl,
  inr,
}
use glassbox_agentic_governa.Errors.{
  GlassBoxError, Result, ok, err, err≢ok, domain_validation, Result-cases,
}
use glassbox_agentic_governa.Action.{ProposedAction, ResourceRef, Parameters}
use glassbox_agentic_governa.Mandate.{Digest}
use glassbox_agentic_governa.Evidence.{VerifiedPrincipal}
use glassbox_agentic_governa.Identity.{DelegationHop, require_valid_at}
use glassbox_agentic_governa.Service.Ports.{
  Ports, Config, World, Call, Step, next, ◌>>=◌, verified_identity, call, read_clock,
}
use glassbox_agentic_governa.Service.Entry.{
  EntryPorts, Correlation, check_tool_registry, check_catalogue, on_verified, verify_principal,
  opened, id_or_new, decide_opened, decide_and_dispatch, request_resolved,
  decide_and_dispatch_for_request, tool_resolved, decide_and_dispatch_for_tool_call,
}
use glassbox_agentic_governa.Service.Quiet.{is_quiet, Preserves}
use glassbox_agentic_governa.Service.EntryQuiet.{
  check_tool_registry-Preserves, check_catalogue-Preserves, opened-Preserves,
  verify_principal-Preserves,
}

-- The evidence, the dispatches and the approval workflows of a log.
abbrev pub loud : List Call → List Call
loud [] = []
loud (c ∷ calls) = if is_quiet c then loud calls else c ∷ loud calls

abbrev Hushed : List Call → List Call → Type 0
Hushed before calls = loud calls ≡ before

quiet-Hushed :
    (before : List Call) (c : Call) (calls : List Call)
    → is_quiet c ≡ true
    → Hushed before calls
    → Hushed before (c ∷ calls)
quiet-Hushed before c calls h p = rw h p

-- A step that never returns and that keeps a property of the log.
abbrev Stops : {S A : Type 0} → (List Call → Type 0) → Step S A → Type 0
Stops {S} P m =
    (w : World S) → P w.calls → ((e : GlassBoxError) × ((m w).0 ≡ err e)) × P ((m w).1).calls

raised_next :
    {S A B : Type 0} (P : List Call → Type 0) (t : Result A × World S) (f : A → Step S B)
    (e : GlassBoxError)
    → t.0 ≡ err e
    → P t.1.calls
    → ((e2 : GlassBoxError) × ((next t f).0 ≡ err e2)) × P ((next t f).1).calls
raised_next P (ok a, v) f e h q = cc
raised_next P (err e2, v) f e h q = ((e2, refl), q)

stopped_next :
    {S A B : Type 0} (P : List Call → Type 0) (t : Result A × World S) (f : A → Step S B)
    → ((a : A) → t.0 ≡ ok a → Stops P (f a))
    → P t.1.calls
    → ((e : GlassBoxError) × ((next t f).0 ≡ err e)) × P ((next t f).1).calls
stopped_next P (ok a, v) f stops q = stops a refl v q
stopped_next P (err e, v) f stops q = ((e, refl), q)

Stops-before :
    {S A B : Type 0} (P : List Call → Type 0) (m : Step S A) (f : A → Step S B)
    → Stops P m
    → Stops P (m >>= f)
Stops-before P m f stops w p = let ((e, raised), q) = stops w p in raised_next P (m w) f e raised q

-- Whatever comes between.
Stops-after :
    {S A B : Type 0} (P : List Call → Type 0) (m : Step S A) (f : A → Step S B)
    → Preserves P m
    → ((a : A) → Stops P (f a))
    → Stops P (m >>= f)
Stops-after P m f kept stops w p = stopped_next P (m w) f (λ a h. stops a) (kept w p)

next-eq_ok :
    {S A B : Type 0} (t : Result A × World S) (f : A → Step S B) {b : B}
    → (next t f).0 ≡ ok b
    → (a : A) × (t.0 ≡ ok a) × ((f a t.1).0 ≡ ok b)
next-eq_ok (ok a, v) f h = (a, refl, h)
next-eq_ok (err e, v) f h = absurd (err≢ok h)

-- What the verifier answers at a moment, in whichever state, is no principal of the tenant that is
-- valid at that moment: it does not know the caller, the credential or a delegation has expired, or
-- the principal belongs to another tenant.
abbrev pub Unverified : {S C : Type 0} → EntryPorts S C → C → String → ℕ → Type 0
Unverified {S} entry credential tenant_id now =
    (s : S) (principal : VerifiedPrincipal) (chain : List DelegationHop)
    → (entry.verify credential now s).0 ≡ ok (principal, chain)
    → require_valid_at principal chain now ≡ ok tt
    → (principal.tenant_id == tenant_id) ≡ false

-- The step raises, and the log has no more evidence, dispatch or workflow than before.
abbrev pub Refused : {S A : Type 0} → Step S A → World S → Type 0
Refused m w = ((e : GlassBoxError) × ((m w).0 ≡ err e)) × (loud ((m w).1).calls ≡ loud w.calls)

module _ {S C : Type 0} (decimal : ℕ → String) (ports : Ports S) (entry : EntryPorts S C)
    (config : Config) where
  on_verified-err :
      (credential : C) (tenant_id : String) (now : ℕ) (s : S)
      (v : VerifiedPrincipal × List DelegationHop) (w : World S)
      → Unverified entry credential tenant_id now
      → (entry.verify credential now s).0 ≡ ok v
      → (e : GlassBoxError) × ((on_verified decimal ports entry config tenant_id now v w).0 ≡ err e)
  on_verified-err credential tenant_id now s (principal, chain) w unverified h =
      elim (Result-cases (require_valid_at principal chain now)) [
        | inl (e, expired) ↦ rw expired (e, refl)
        | inr (u, valid) ↦
            let foreign = unverified s principal chain h valid in
            rw valid (rw foreign (domain_validation "resource", refl))
      ]

  on_answer-err :
      (credential : C) (tenant_id : String) (now : ℕ) (s : S)
      (r : Result (VerifiedPrincipal × List DelegationHop)) (w : World S)
      → Unverified entry credential tenant_id now
      → (entry.verify credential now s).0 ≡ r
      → (e : GlassBoxError) × ((next
            (r, w)
            (on_verified decimal ports entry config tenant_id now)).0
          ≡ err e)
  on_answer-err credential tenant_id now s (ok v) w unverified h =
      on_verified-err credential tenant_id now s v w unverified h
  on_answer-err credential tenant_id now s (err e) w unverified h = (e, refl)

  -- The verification, as a step that never returns.
  module _ (credential : C) (tenant_id : String) (before : List Call) where
    verify_principal-Stops :
        (now : ℕ)
        → Unverified entry credential tenant_id now
        → Stops
            (Hushed before)
            (verify_principal decimal ports entry config credential tenant_id now)
    unfolding verify_principal
    verify_principal-Stops now unverified w p = (
      on_answer-err credential tenant_id now w.state (entry.verify credential now w.state).0
          (record {
            state = (entry.verify credential now w.state).1;
            calls = verified_identity ∷ w.calls;
          })
          unverified refl,
      verify_principal-Preserves (Hushed before) (quiet-Hushed before) decimal ports entry config
          credential tenant_id now w p,
    )

  -- The moment of a decision is what the clock answered.
  opened-clock :
      (c : Correlation) (w : World S) (o : ℕ × String × String)
      → (opened decimal ports entry config c w).0 ≡ ok o
      → (entry.clock_now w.state).0 ≡ ok o.0
  unfolding opened
  opened-clock c w o h =
      let (now, read, h1) = next-eq_ok (call (λ _. read_clock) entry.clock_now w) _ h in
      let (decision_id, _, h2) =
        next-eq_ok (id_or_new decimal ports entry config "decision" c.decision_id _) _ h1 in
      let (trace_id, _, h3) =
        next-eq_ok (id_or_new decimal ports entry config "trace" c.trace_id _) _ h2 in
      let same : now ≡ o.0 = cc in read ∙ ap (λ n. ok n) same

  -- For a caller who is not verified for the resource's tenant at the moment that the clock answers,
  -- whatever the other ports answer: all three entry
  -- points, that of an action, of a request and of a tool call, raise, and none of them writes a
  -- record of evidence, opens an approval workflow or dispatches.
  pub entries-Unverified :
      (credential : C) (a : ProposedAction) (x : ResourceRef) (name : String) (d : Digest)
      (parameters : Parameters) (key : String) (c : Correlation) (w : World S)
      → a.resource ≡ x
      → ((now : ℕ)
          → (entry.clock_now w.state).0 ≡ ok now
          → Unverified entry credential x.tenant_id now)
      → Refused (decide_and_dispatch decimal ports entry config credential a c) w
        × Refused
            (decide_and_dispatch_for_request decimal ports entry config credential name x parameters
              key c)
            w
        × Refused
            (decide_and_dispatch_for_tool_call decimal ports entry config credential name d x
              parameters key c)
            w
  unfolding decide_and_dispatch decide_and_dispatch_for_request decide_and_dispatch_for_tool_call
  entries-Unverified credential a x name d parameters key c w same unverified =
      let before = loud w.calls in
      let P : List Call → Type 0 = Hushed before in
      let quiet = quiet-Hushed before in
      let start = opened decimal ports entry config c w in
      let opens = opened-Preserves P quiet decimal ports entry config c w refl in
      let refuses : (o : ℕ × String × String)
          → start.0 ≡ ok o
          → Stops P (verify_principal decimal ports entry config credential x.tenant_id o.0) =
        λ o h.
          verify_principal-Stops credential x.tenant_id before o.0
            (unverified o.0 (opened-clock c w o h)) in
      (
        stopped_next P start (decide_opened decimal ports entry config credential a c)
            (λ o h.
              Stops-before P
                (verify_principal decimal ports entry config credential a.resource.tenant_id o.0) _
                (rw same (refuses o h)))
            opens,
        stopped_next P start _
            (λ o h.
              Stops-after P (check_catalogue decimal ports entry config x name parameters key o.0)
                (request_resolved decimal ports entry config credential x c o)
                (check_catalogue-Preserves P quiet decimal ports entry config x name parameters key
                  o.0)
                (λ r.
                  Stops-before P
                    (verify_principal decimal ports entry config credential x.tenant_id o.0) _
                    (refuses o h)))
            opens,
        stopped_next P start _
            (λ o h.
              Stops-after P (check_tool_registry decimal ports entry config x name d parameters key)
                (tool_resolved decimal ports entry config credential x c o)
                (check_tool_registry-Preserves P quiet decimal ports entry config x name d
                  parameters key)
                (λ r.
                  Stops-before P
                    (verify_principal decimal ports entry config credential x.tenant_id o.0) _
                    (refuses o h)))
            opens,
      )
