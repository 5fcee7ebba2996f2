-- ===== src/Risk/Cache.antt =====
-- Facts of the anti-replay cache: apps/server/src/risk-engine/ticket.ts.
use finance_agent_os.Base.{
  ℕ, ◌≤◌, ◌<◌, ◌≡◌, ◌⊎◌, inl, inr, Bool, true, false, String, ◌==◌, eq_iff, includes, none,
  Bool-cases, List, [], ◌∷◌, Dict, lookup, insert, remove, lookup-insert, lookup-remove, ltb,
  is_some, arith, if◌then◌else◌,
}
use finance_agent_os.Risk.Ticket.{
  UsedTickets, delete_id, clean_entries, clean_expired_tickets, mark_ticket_redeemed,
}

-- The two halves of the cache know the same tickets.
abbrev pub Synced : UsedTickets → Type 0
Synced u = (id : String) → is_some (lookup id u.timestamps) ≡ includes u.used id

-- Every entry of a ticket has this expiry.
abbrev pub Expires : String → ℕ → Dict ℕ → Type 0
Expires id exp [] = Unit
Expires id exp ((j, e) ∷ m) = ((j == id) ≡ true → e ≡ exp) × Expires id exp m

includes-delete :
    (id j : String) (xs : List String)
    → includes (delete_id id xs) j ≡ (if id == j then false else includes xs j)
includes-delete id j [] = ground arith
includes-delete id j (x ∷ xs) =
    ground (arith, includes-delete id j xs, eq_iff x id, eq_iff x j, eq_iff id j)

drop-Synced :
    (id : String) (u : UsedTickets)
    → Synced u
    → Synced (record { used = delete_id id u.used; timestamps = remove id u.timestamps })
drop-Synced id u s j =
    ground (arith, lookup-remove id j u.timestamps, includes-delete id j u.used, s j)

pub mark-Synced :
    (id : String) (exp : ℕ) (u : UsedTickets) → Synced u → Synced (mark_ticket_redeemed id exp u)
unfolding mark_ticket_redeemed
mark-Synced id exp u s j = ground (arith, lookup-insert id j exp u.timestamps, s j)

pub clean_entries-Synced :
    (now : ℕ) (m : Dict ℕ) (u : UsedTickets) → Synced u → Synced (clean_entries now m u)
unfolding clean_entries
clean_entries-Synced now [] u s = s
clean_entries-Synced now ((id, exp) ∷ m) u s =
    clean_entries-Synced now m
      (if ltb exp now
        then record { used = delete_id id u.used; timestamps = remove id u.timestamps }
        else u)
      (pick (ltb exp now))
  where
    pick :
        (b : Bool)
        → Synced (
            if b
            then record { used = delete_id id u.used; timestamps = remove id u.timestamps }
            else u)
    pick true = drop-Synced id u s
    pick false = s

pub Expires-none : (id : String) (exp : ℕ) (m : Dict ℕ) → lookup id m ≡ none → Expires id exp m
unfolding lookup
Expires-none id exp [] h = tt
Expires-none id exp ((j, e) ∷ m) h =
    (λ k. absurd (ground arith), Expires-none id exp m (ground arith))

pub Expires-insert :
    (id j : String) (exp e : ℕ) (m : Dict ℕ)
    → Expires id exp m
    → ((j == id) ≡ true → e ≡ exp)
    → Expires id exp (insert j e m)
unfolding insert
Expires-insert id j exp e [] h k = (k, tt)
Expires-insert id j exp e ((i, f) ∷ m) h k = elim (Bool-cases (i == j)) [
  | inl p ↦ rw p (k, h.1)
  | inr p ↦ rw p (h.0, Expires-insert id j exp e m h.1 k)
]

Expires-remove :
    (id j : String) (exp : ℕ) (m : Dict ℕ) → Expires id exp m → Expires id exp (remove j m)
unfolding remove
Expires-remove id j exp [] h = tt
Expires-remove id j exp ((i, f) ∷ m) h = elim (Bool-cases (i == j)) [
  | inl p ↦ rw p (Expires-remove id j exp m h.1)
  | inr p ↦ rw p (h.0, Expires-remove id j exp m h.1)
]

-- The ticket is in the cache, with its expiry.
pub record Kept (id : String) (exp : ℕ) (u : UsedTickets) : Type 0 where
  pub in_used : includes u.used id ≡ true
  pub expires : Expires id exp u.timestamps

-- The ticket is in the cache, or it has expired.
abbrev pub Spent : String → ℕ → ℕ → UsedTickets → Type 0
Spent id exp now u = Kept id exp u ⊎ (exp < now)

clean_entries-Kept :
    (id : String) (exp now : ℕ) (m : Dict ℕ) (u : UsedTickets)
    → now ≤ exp
    → Expires id exp m
    → Kept id exp u
    → Kept id exp (clean_entries now m u)
unfolding clean_entries
clean_entries-Kept id exp now [] u h es k = k
clean_entries-Kept id exp now ((j, e) ∷ m) u h es k = elim (Bool-cases (ltb e now)) [
  | inl p ↦ rw p (
      clean_entries-Kept id exp now m _ h es.1 (record {
        in_used = ground (arith, includes-delete j id u.used, k.in_used, es.0);
        expires = Expires-remove id j exp u.timestamps k.expires;
      }))
  | inr p ↦ rw p (clean_entries-Kept id exp now m u h es.1 k)
]

pub clean-Spent :
    (id : String) (exp now : ℕ) (u : UsedTickets)
    → Kept id exp u
    → Spent id exp now (clean_expired_tickets now u)
unfolding clean_expired_tickets
clean-Spent id exp now u k = elim (Bool-cases (ltb exp now)) [
  | inl p ↦ inr (ground arith)
  | inr p ↦ inl (clean_entries-Kept id exp now u.timestamps u (ground arith) k.expires k)
]
