-- ===== src/Worker/Polling/Slots.antt =====
-- What one step of a thread does to the slots of the scaler and the permits of the gate.
use temporal_cpp.Prelude.{
  ℕ, ◌+◌, ◌≤◌, ◌<◌, ◌≡◌, refl, ap, ◌&&◌, true, none, some, List, [], ◌∷◌, ◌++◌, arith,
  if◌then◌else◌,
}
use temporal_cpp.Worker.{acquire, release, acquire_slot, release_slot, report}
use temporal_cpp.Worker.Polling.{
  Pool, Kind, Position, Event, goes, rpc_returns, rpc_throws, handle_returns, handle_throws,
  at_head, parked, falling, asleep, polling, handling, poll_step, all_ended, has_ended, at_heads,
  rouse,
}

-- The slots of the scaler that a thread holds: one across its poll, if it parks at all.
abbrev pub slot : Kind × Position → ℕ
slot (k, polling) = if k.scalable then 1 else 0
slot (k, _) = 0

-- The permits of the gate that a thread holds: one across Handle.
abbrev pub permit : Kind × Position → ℕ
permit (k, handling) = 1
permit (k, _) = 0

abbrev pub total : (Kind × Position → ℕ) → List (Kind × Position) → ℕ
total f [] = 0
total f (t ∷ ts) = f t + total f ts

pub total-append :
    (f : Kind × Position → ℕ) (xs ys : List (Kind × Position))
    → total f (xs ++ ys) ≡ total f xs + total f ys
total-append f [] ys = omega arith
total-append f (x ∷ xs) ys = omega (arith, total-append f xs ys)

-- Only a loop that scales parks.
abbrev pub Placed : Kind × Position → Type 0
Placed (k, parked) = k.scalable ≡ true
Placed (k, falling) = k.scalable ≡ true
Placed (k, asleep) = k.scalable ≡ true
Placed (k, _) = Unit

abbrev pub AllPlaced : List (Kind × Position) → Type 0
AllPlaced [] = Unit
AllPlaced (t ∷ ts) = Placed t × AllPlaced ts

-- What one step moves.
pub poll_step-slot :
    (k : Kind) (e : Event) (p : Position) (pool : Pool) {p' : Position} {pool' : Pool}
    → poll_step k e p pool ≡ some (p', pool')
    → Placed (k, p)
    → slot (k, p) ≤ pool.scaler.scalable_active
    → pool'.scaler.scalable_active + slot (k, p) ≡ pool.scaler.scalable_active + slot (k, p')
unfolding poll_step acquire_slot release_slot report acquire release
poll_step-slot k goes at_head pool h q b = ground arith
poll_step-slot k goes parked pool h q b = ground arith
poll_step-slot k goes p pool h q b = ground arith
poll_step-slot k (rpc_returns got) p pool h q b = ground arith
poll_step-slot k rpc_throws p pool h q b = ground arith
poll_step-slot k handle_returns p pool h q b = ground arith
poll_step-slot k handle_throws p pool h q b = ground arith

pub poll_step-Placed :
    (k : Kind) (e : Event) (p : Position) (pool : Pool) {p' : Position} {pool' : Pool}
    → poll_step k e p pool ≡ some (p', pool')
    → Placed (k, p)
    → Placed (k, p')
unfolding poll_step acquire_slot release_slot report acquire release
poll_step-Placed k goes at_head pool {p' = parked} h q = ground arith
poll_step-Placed k goes p pool {p' = parked} h q = ground arith
poll_step-Placed k goes parked pool {p' = falling} h q = q
poll_step-Placed k goes p pool {p' = falling} h q = ground arith
poll_step-Placed k goes falling pool {p' = asleep} h q = q
poll_step-Placed k goes p pool {p' = asleep} h q = ground arith
poll_step-Placed k (rpc_returns got) p pool {p' = parked} h q = ground arith
poll_step-Placed k (rpc_returns got) p pool {p' = falling} h q = ground arith
poll_step-Placed k (rpc_returns got) p pool {p' = asleep} h q = ground arith
poll_step-Placed k rpc_throws p pool {p' = parked} h q = ground arith
poll_step-Placed k rpc_throws p pool {p' = falling} h q = ground arith
poll_step-Placed k rpc_throws p pool {p' = asleep} h q = ground arith
poll_step-Placed k handle_returns p pool {p' = parked} h q = ground arith
poll_step-Placed k handle_returns p pool {p' = falling} h q = ground arith
poll_step-Placed k handle_returns p pool {p' = asleep} h q = ground arith
poll_step-Placed k handle_throws p pool {p' = parked} h q = ground arith
poll_step-Placed k handle_throws p pool {p' = falling} h q = ground arith
poll_step-Placed k handle_throws p pool {p' = asleep} h q = ground arith
poll_step-Placed k e p pool {p' = _} h q = tt

pub poll_step-permit :
    (k : Kind) (e : Event) (p : Position) (pool : Pool) {p' : Position} {pool' : Pool}
    → poll_step k e p pool ≡ some (p', pool')
    → permit (k, p) ≤ pool.gate.in_flight
    → pool'.gate.in_flight + permit (k, p) ≡ pool.gate.in_flight + permit (k, p')
unfolding poll_step acquire_slot release_slot report acquire release
poll_step-permit k goes p pool h b = ground arith
poll_step-permit k (rpc_returns got) p pool h b = ground arith
poll_step-permit k rpc_throws p pool h b = ground arith
poll_step-permit k handle_returns p pool h b = ground arith
poll_step-permit k handle_throws p pool h b = ground arith

-- A gate with a positive limit has no more permits out than that.
abbrev pub IsBounded : Pool → Type 0
IsBounded pool = 0 < pool.gate.limit → pool.gate.in_flight ≤ pool.gate.limit

pub poll_step-IsBounded :
    (k : Kind) (e : Event) (p : Position) (pool : Pool) {p' : Position} {pool' : Pool}
    → poll_step k e p pool ≡ some (p', pool')
    → IsBounded pool
    → IsBounded pool'
unfolding poll_step acquire_slot release_slot report acquire release
poll_step-IsBounded k goes p pool h b = ground arith
poll_step-IsBounded k (rpc_returns got) p pool h b = ground arith
poll_step-IsBounded k rpc_throws p pool h b = ground arith
poll_step-IsBounded k handle_returns p pool h b = ground arith
poll_step-IsBounded k handle_throws p pool h b = ground arith

pub AllPlaced-split :
    (before after : List (Kind × Position)) (t : Kind × Position)
    → AllPlaced (before ++ t ∷ after)
    → AllPlaced before × Placed t × AllPlaced after
AllPlaced-split [] after t h = (tt, h.0, h.1)
AllPlaced-split (x ∷ before) after t h =
    let rest = AllPlaced-split before after t h.1 in ((h.0, rest.0), rest.1, rest.2)

pub AllPlaced-join :
    (before after : List (Kind × Position)) (t : Kind × Position)
    → AllPlaced before
    → Placed t
    → AllPlaced after
    → AllPlaced (before ++ t ∷ after)
AllPlaced-join [] after t b q a = (q, a)
AllPlaced-join (x ∷ before) after t b q a = (b.0, AllPlaced-join before after t b.1 q a)

pub at_heads-Placed : (ks : List Kind) → AllPlaced (at_heads ks)
at_heads-Placed [] = tt
at_heads-Placed (k ∷ ks) = (tt, at_heads-Placed ks)

pub total-at_heads :
    (ks : List Kind) → (total slot (at_heads ks) ≡ 0) × (total permit (at_heads ks) ≡ 0)
total-at_heads [] = (refl, refl)
total-at_heads (k ∷ ks) =
    let rest = total-at_heads ks in (omega (arith, rest.0), omega (arith, rest.1))

pub all_ended-split :
    (before after : List (Kind × Position)) (k : Kind) (p : Position)
    → all_ended (before ++ (k, p) ∷ after) ≡ true
    → has_ended p ≡ true
all_ended-split [] after k p h = ground arith
all_ended-split ((j, q) ∷ before) after k p h = all_ended-split before after k p (ground arith)

pub poll_step-ended :
    (k : Kind) (e : Event) (p : Position) (pool : Pool)
    → has_ended p ≡ true
    → poll_step k e p pool ≡ none
unfolding poll_step
poll_step-ended k goes p pool h = ground arith
poll_step-ended k (rpc_returns got) p pool h = ground arith
poll_step-ended k rpc_throws p pool h = ground arith
poll_step-ended k handle_returns p pool h = ground arith
poll_step-ended k handle_throws p pool h = ground arith

-- Wake moves no slot and no permit, and ends no thread.
pub record Roused (ts us : List (Kind × Position)) : Type 0 where
  pub slots : total slot us ≡ total slot ts
  pub permits : total permit us ≡ total permit ts
  pub endings : all_ended us ≡ all_ended ts
  pub places : AllPlaced ts → AllPlaced us

pub rouse-Roused : (ts : List (Kind × Position)) → Roused ts (rouse ts)
unfolding rouse
rouse-Roused [] = record { slots = refl; permits = refl; endings = refl; places = λ h. h }
rouse-Roused ((k, asleep) ∷ ts) =
    let rest = rouse-Roused ts in
    record {
      slots = ap (λ n. 0 + n) rest.slots;
      permits = ap (λ n. 0 + n) rest.permits;
      endings = refl;
      places = λ h. (h.0, rest.places h.1);
    }
rouse-Roused ((k, p) ∷ ts) =
    let rest = rouse-Roused ts in
    record {
      slots = ap (λ n. slot (k, p) + n) rest.slots;
      permits = ap (λ n. permit (k, p) + n) rest.permits;
      endings = ap (λ b. has_ended p && b) rest.endings;
      places = λ h. (h.0, rest.places h.1);
    }
