-- ===== src/Proxy/Sessions/Ports.antt =====
-- The search for a local port tries every port of the range.
use link_suffix.Base.{
  ==_iff, ◌==◌, ◌∷◌, ℕ, zero, suc, ◌+◌, ◌-◌, ◌≡◌, ◌≤◌, ◌<◌, Bool, true, false, Option, some, arith,
  refl, inl, inr, Bool-cases, leb, if◌then◌else◌,
}
use link_suffix.Proxy.Sessions.{
  Config, Manager, port_is_available, next_port, reserve_within, reserve_port,
}

-- How many ports are tried before `p`, from `n` on.
abbrev ahead : Config → ℕ → ℕ → ℕ
ahead c n p = if leb n p then p - n else (p + (c.port_max - c.port_min + 1)) - n

module _ (c : Config) (can_listen : ℕ → Bool) (p : ℕ) where
  -- A port that was reserved was free, is in the range, and is reserved now.
  abbrev pub IsReservation : Manager → Manager × Option ℕ → Type 0
  IsReservation m r =
      (q : ℕ) × (r.1 ≡ some q)
      × (port_is_available c can_listen m q ≡ true)
      × ((c.port_min ≤ q) × (q ≤ c.port_max))
      × (r.0.reserved_ports ≡ q ∷ m.reserved_ports)

  -- A port that is not free is not the one that is looked for.
  differs :
      (m : Manager) (n : ℕ)
      → port_is_available c can_listen m n ≡ false
      → port_is_available c can_listen m p ≡ true
      → (n == p) ≡ false
  differs m n miss free = elim (Bool-cases (n == p)) [
    | inl same ↦
        let here : port_is_available c can_listen m n ≡ true = rw ((==_iff n p).0 same) free in
        absurd (ground (arith, miss, here))
    | inr other ↦ other
  ]

  next_port-range :
      (n : ℕ)
      → c.port_min ≤ n
      → n ≤ c.port_max
      → (c.port_min ≤ next_port c n) × (next_port c n ≤ c.port_max)
  next_port-range n low high = ground arith

  next_port-nearer :
      (n k : ℕ)
      → c.port_min ≤ n
      → n ≤ c.port_max
      → c.port_min ≤ p
      → p ≤ c.port_max
      → (n == p) ≡ false
      → ahead c n p < suc k
      → ahead c (next_port c n) p < k
  next_port-nearer n k low high p_low p_high other near = ground arith

  within-finds :
      (attempts : ℕ) (m : Manager)
      → c.port_min ≤ m.next_local_port
      → m.next_local_port ≤ c.port_max
      → c.port_min ≤ p
      → p ≤ c.port_max
      → port_is_available c can_listen m p ≡ true
      → ahead c m.next_local_port p < attempts
      → IsReservation m (reserve_within c can_listen attempts m)
  unfolding reserve_within
  within-finds zero m low high p_low p_high free near = absurd (omega arith)
  within-finds (suc k) m low high p_low p_high free near =
      let n = m.next_local_port in
      elim (Bool-cases (port_is_available c can_listen m n)) [
        | inl hit ↦ rw hit (n, refl, hit, (low, high), refl)
        | inr miss ↦
            let (n_low, n_high) = next_port-range n low high in
            let nearer = next_port-nearer n k low high p_low p_high (differs m n miss free) near in
            rw miss (
              within-finds k (record m { next_local_port = next_port c n }) n_low n_high p_low
                p_high free nearer)
      ]

  -- While some port of the range is free, the search finds a free port of the range, wherever in the range it
  -- begins.
  pub reserve_port-finds :
      (m : Manager)
      → c.port_min ≤ m.next_local_port
      → m.next_local_port ≤ c.port_max
      → c.port_min ≤ p
      → p ≤ c.port_max
      → port_is_available c can_listen m p ≡ true
      → IsReservation m (reserve_port c can_listen m)
  unfolding reserve_port
  reserve_port-finds m low high p_low p_high free =
      within-finds (c.port_max - c.port_min + 1) m low high p_low p_high free (ground arith)
