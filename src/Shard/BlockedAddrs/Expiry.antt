-- ===== src/Shard/BlockedAddrs/Expiry.antt =====
-- backend/telemetry_shard/src/blocked_addrs.rs: how long an address is refused.
use substrate_telemetry.Prelude.{
  ℕ, ◌+◌, ◌≡◌, ite, refl, sym, ◌∙◌, ap, Option, none, some, Text, ltb, if◌then◌else◌, arith,
}
use substrate_telemetry.Prelude.HashMap
use substrate_telemetry.Prelude.HashMap.{get-insert, get-remove}
use substrate_telemetry.Common.InternalMessages.{IpAddr, addr_key}
use substrate_telemetry.Shard.BlockedAddrs.{BlockedAddrs, block_addr, check_entry, blocked_reason}

-- What an entry says at a time: its reason, until the duration has passed.
abbrev pub reason_at : (duration now : ℕ) → Option (Text × ℕ) → Option Text
reason_at duration now none = none
reason_at duration now (some (reason, time)) =
    if ltb (time + duration) now then none else some reason

check_entry_lem :
    (now : ℕ) (addr : IpAddr) (o : Option (Text × ℕ)) (b : BlockedAddrs)
    → (check_entry now addr o b).1 ≡ reason_at b.block_duration now o
unfolding check_entry
check_entry_lem now addr none b = refl
check_entry_lem now addr (some (reason, time)) b = ground arith

-- Cleaning up an expired entry cannot be seen later: a call at a later time answers the same.
check_entry-later :
    (now later : ℕ) (addr other : IpAddr) (o : Option (Text × ℕ)) (b : BlockedAddrs)
    → HashMap.get addr b.inner ≡ o
    → reason_at b.block_duration
        (now + later)
        (HashMap.get other (check_entry now addr o b).0.inner)
      ≡ reason_at b.block_duration (now + later) (HashMap.get other b.inner)
unfolding check_entry
check_entry-later now later addr other none b e = refl
check_entry-later now later addr other (some (reason, time)) b e =
    ground (arith, get-remove addr other b.inner, e)

duration-check_entry :
    (now : ℕ) (addr : IpAddr) (o : Option (Text × ℕ)) (b : BlockedAddrs)
    → (check_entry now addr o b).0.block_duration ≡ b.block_duration
unfolding check_entry
duration-check_entry now addr none b = refl
duration-check_entry now addr (some (reason, time)) b = ground arith

blocked_reason_lem :
    (now : ℕ) (addr : IpAddr) (b : BlockedAddrs)
    → (blocked_reason now addr b).1 ≡ reason_at b.block_duration now (HashMap.get addr b.inner)
unfolding blocked_reason
blocked_reason_lem now addr b = check_entry_lem now addr (HashMap.get addr b.inner) b

-- A blocked address is refused with the reason that it was last blocked for, up to and including
-- the moment when the block has lasted its duration; other addresses are answered as before.
pub blocked_reason-block_addr :
    (now later : ℕ) (addr other : IpAddr) (reason : Text) (b : BlockedAddrs)
    → (blocked_reason later other (block_addr now addr reason b)).1
      ≡ ite
          (addr_key.dec addr other)
          (reason_at b.block_duration later (some (reason, now)))
          (blocked_reason later other b).1
unfolding block_addr
blocked_reason-block_addr now later addr other reason b = ground (
  arith,
  blocked_reason_lem later other (block_addr now addr reason b),
  blocked_reason_lem later other b,
  get-insert addr other (reason, now) b.inner,
)

-- Asking about an address, which may clean up its entry, changes no answer at the same or a later
-- time.
pub blocked_reason-blocked_reason :
    (now later : ℕ) (addr other : IpAddr) (b : BlockedAddrs)
    → (blocked_reason (now + later) other (blocked_reason now addr b).0).1
      ≡ (blocked_reason (now + later) other b).1
unfolding blocked_reason
blocked_reason-blocked_reason now later addr other b =
    let o = HashMap.get addr b.inner in
    let c = (check_entry now addr o b).0 in
    check_entry_lem (now + later) other (HashMap.get other c.inner) c
    ∙ ap (λ d. reason_at d (now + later) (HashMap.get other c.inner))
        (duration-check_entry now addr o b)
    ∙ check_entry-later now later addr other o b refl
    ∙ sym (check_entry_lem (now + later) other (HashMap.get other b.inner) b)
