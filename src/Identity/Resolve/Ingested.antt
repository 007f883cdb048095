-- ===== src/Identity/Resolve/Ingested.antt =====
-- internal/events/validate.go with internal/identity/service.go: an event that is let in is resolved.
use osscdp.Prelude.{Option, none, some, [], ok, ◌≡◌, ◌≢◌}
use osscdp.Events.Envelope.{Envelope}
use osscdp.Events.Validate.{validate_event}
use osscdp.Events.Validate.Identified.{validate_event-identified}
use osscdp.Identity.Identifier.{extract_identifiers}
use osscdp.Identity.Graph.{Graph}
use osscdp.Identity.Resolve.{Env, Resolved, resolve}
use osscdp.Identity.Resolve.Nodes.{Enciphers}
use osscdp.Identity.Resolve.Active.{IsSound}
use osscdp.Identity.Resolve.Again.{resolve-ok, resolve-none}

some_result :
    (env : Env) (e : Envelope) (g g' : Graph) (res : Option Resolved)
    → extract_identifiers e ≢ []
    → resolve env e g ≡ ok (g', res)
    → (r : Resolved) × (resolve env e g ≡ ok (g', some r))
some_result env e g g' none n h = absurd (n (resolve-none env e g g' h))
some_result env e g g' (some r) n h = (r, h)

-- An event that Validate lets pass is given a cluster: in a graph where each membership names a
-- cluster that exists and is not merged away, and if no value fails to encrypt, Resolve returns a
-- result for it.
pub validate_event-resolve :
    (env : Env) (e : Envelope) (g : Graph)
    → validate_event e ≡ ok tt
    → IsSound g
    → Enciphers env
    → (g' : Graph) × (r : Resolved) × (resolve env e g ≡ ok (g', some r))
validate_event-resolve env e g v s enc =
    let ((g', res), h) = resolve-ok env e g s enc in
    let (r, k) = some_result env e g g' res (validate_event-identified e tt v) h in (g', r, k)
