-- ===== src/Observer/Ends.antt =====
-- When the observer of internal/observer/observer.go terminates an execution.
use aegis_router.Base.{◌≡◌, true, false, ap, arith}
use aegis_router.Time.{Time}
use aegis_router.Models.{Unicode}
use aegis_router.Runtime.{Envelope, RuntimeEvent, EventEvaluation}
use aegis_router.Observer.Verdicts.{Judged, rejected, crossed, stayed}

pub Judged-terminated :
    (u : Unicode) (p : Envelope) (e : RuntimeEvent) (now : Time) (v : EventEvaluation)
    → Judged u p e now v
    → v.is_within ≡ false
    → v.is_terminated ≡ true
Judged-terminated u p e now v (rejected found refused ended verdict) h = ended.terminated
Judged-terminated u p e now v (crossed bound found accepted ended verdict) h = ended.terminated
Judged-terminated u p e now v (stayed bound clear same) h =
    absurd (ground (arith, ap (λ x. x.is_within) same))

pub Judged-running :
    (u : Unicode) (p : Envelope) (e : RuntimeEvent) (now : Time) (v : EventEvaluation)
    → Judged u p e now v
    → v.is_terminated ≡ false
    → v.is_within ≡ true
Judged-running u p e now v (rejected found refused ended verdict) h =
    absurd (ground (arith, ended.terminated))
Judged-running u p e now v (crossed bound found accepted ended verdict) h =
    absurd (ground (arith, ended.terminated))
Judged-running u p e now v (stayed bound clear same) h = ap (λ x. x.is_within) same

pub Judged-outside :
    (u : Unicode) (p : Envelope) (e : RuntimeEvent) (now : Time) (v : EventEvaluation)
    → Judged u p e now v
    → v.is_terminated ≡ true
    → v.is_within ≡ false
Judged-outside u p e now v (rejected found refused ended verdict) h = ended.outside
Judged-outside u p e now v (crossed bound found accepted ended verdict) h = ended.outside
Judged-outside u p e now v (stayed bound clear same) h =
    absurd (ground (arith, ap (λ x. x.is_terminated) same))
