-- ===== src/Consumer/Tcp/Pool.antt =====
-- Which connections of the pool are in use (consumer/api/cpp/src/tcp_connection_pool.cpp).
use asapo.Base.{
  ℕ, ◌≡◌, refl, ◌⊎◌, inl, inr, Bool, true, false, not, ◌&&◌, ◌||◌, List, [], ◌∷◌, ◌++◌, some, arith,
  ◌+◌, length, ◌==◌, Option-cases, Bool-cases,
}
use asapo.Consumer.Tcp.{TcpConnectionInfo, find_free, find_connection, release_connection}

abbrev pub used : ℕ → List TcpConnectionInfo → Bool
used x [] = false
used x (c ∷ cs) = (c.sd == x && c.in_use) || used x cs

pub find_free-used :
    (source x sd : ℕ) (cs cs' : List TcpConnectionInfo)
    → find_free source cs ≡ some (sd, cs')
    → used x cs' ≡ true
    → (used x cs ≡ true) ⊎ (sd ≡ x)
unfolding find_free
find_free-used source x sd [] cs' e h = absurd (cc)
find_free-used source x sd (c ∷ cs) cs' e h = elim (Option-cases (find_free source cs)) [
  | inl n ↦ ground arith
  | inr ((d, ds), f) ↦ elim (Bool-cases (used x ds)) [
    | inl t ↦ (let ih = find_free-used source x d cs ds f t in ground arith)
    | inr t ↦ ground arith
  ]
]

pub used-append :
    (x : ℕ) (cs ds : List TcpConnectionInfo) → used x (cs ++ ds) ≡ (used x cs || used x ds)
used-append x [] ds = refl
used-append x (c ∷ cs) ds = let ih = used-append x cs ds in ground arith

pub used-release :
    (x sd : ℕ) (cs : List TcpConnectionInfo)
    → used x (release_connection sd cs) ≡ (not (sd == x) && used x cs)
unfolding release_connection
used-release x sd [] = ground arith
used-release x sd (c ∷ cs) = let ih = used-release x sd cs in ground arith

pub find_connection-used :
    (x sd uri : ℕ) (cs cs' : List TcpConnectionInfo)
    → find_connection sd cs ≡ some (uri, cs')
    → used x cs' ≡ true
    → used x cs ≡ true
unfolding find_connection
find_connection-used x sd uri [] cs' e h = absurd (cc)
find_connection-used x sd uri (c ∷ cs) cs' e h = elim (Option-cases (find_connection sd cs)) [
  | inl n ↦ ground arith
  | inr ((u, ds), f) ↦ elim (Bool-cases (used x ds)) [
    | inl t ↦ (let ih = find_connection-used x sd u cs ds f t in ground arith)
    | inr t ↦ ground arith
  ]
]

pub length-find_free :
    (source sd : ℕ) (cs cs' : List TcpConnectionInfo)
    → find_free source cs ≡ some (sd, cs')
    → length cs' ≡ length cs
unfolding find_free
length-find_free source sd [] cs' e = absurd (cc)
length-find_free source sd (c ∷ cs) cs' e = elim (Option-cases (find_free source cs)) [
  | inl n ↦ ground arith
  | inr ((d, ds), f) ↦ (let ih = length-find_free source d cs ds f in ground arith)
]

pub length-release :
    (sd : ℕ) (cs : List TcpConnectionInfo) → length (release_connection sd cs) ≡ length cs
unfolding release_connection
length-release sd [] = refl
length-release sd (c ∷ cs) = let ih = length-release sd cs in ground arith

pub length-find_connection :
    (sd uri : ℕ) (cs cs' : List TcpConnectionInfo)
    → find_connection sd cs ≡ some (uri, cs')
    → length cs' + 1 ≡ length cs
unfolding find_connection
length-find_connection sd uri [] cs' e = absurd (cc)
length-find_connection sd uri (c ∷ cs) cs' e = elim (Option-cases (find_connection sd cs)) [
  | inl n ↦ ground arith
  | inr ((u, ds), f) ↦ (let ih = length-find_connection sd u cs ds f in ground arith)
]
