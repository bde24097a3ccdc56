-- ===== src/Verifier/Spending.antt =====
-- consumeInspected of internal/verifier/verifier.go: the step from an inspected permit to a spent one.
use aegis_router.Base.{◌≡◌, true, arith}
use aegis_router.Time.{Time}
use aegis_router.Permit.Claims.{Claims}
use aegis_router.Permit.Store.{consumed, Record, put, consume, succeeded}
use aegis_router.Permit.Store.Lifecycle.{Usable, spent, consume-Usable}
use aegis_router.Verifier.{
  Boundary, Verification, verified, is_verified_outcome, allowed, with_permits, consume_time,
  consume_inspected,
}

pub consume_inspected_allowed :
    (c : Claims) (r : Verification) (clock : Time) (b : Boundary)
    → allowed (consume_inspected c r clock b).1 ≡ true
    → (consume c.permit_id (consume_time r.verified_at clock) b.permits).1.outcome ≡ succeeded
unfolding consume_inspected
consume_inspected_allowed c r clock b h = ground arith

pub consume_inspected_succeeds :
    (c : Claims) (r : Verification) (q : Record) (clock : Time) (b : Boundary)
    → Usable c.permit_id (consume_time r.verified_at clock) b.permits q
    → consume_inspected c r clock b ≡ (
      with_permits b (put c.permit_id (spent q (consume_time r.verified_at clock)) b.permits),
      record r {
        outcome = verified;
        is_verified = true;
        state = consumed;
        verified_at = consume_time r.verified_at clock;
      },
    )
unfolding consume_inspected
consume_inspected_succeeds c r q clock b u =
    rw (consume-Usable c.permit_id (consume_time r.verified_at clock) b.permits q u)

pub allowed_verified : (r : Verification) → allowed r ≡ true → is_verified_outcome r.outcome ≡ true
allowed_verified r h = ground arith
