-- ===== src/Network/Sockets.antt =====
-- The sockets of network/network.c: when `socket_send` accepts data.
use mathlib.Core.Option
use blockos.Prelude.{
  ℕ, zero, suc, ◌<◌, ◌≡◌, refl, ap, sym, ◌∙◌, ◌≢◌, inl, inr, Bool, true, false, List, [], ◌∷◌, map,
  Option, none, some, ℤ, pos, negsuc, minus_one, arith, if◌then◌else◌, ◌==◌, set, get_elem?, modify,
  replicate, Bool-cases, Option-cases, get_elem?-set_self, get_elem?-set_ne, lt_of_get, ==_iff,
}
use blockos.Slots.{slot, slot_set, first_free}
use blockos.Slots.Laws.{map-slot_set, get_elem?-map, map-replicate}
use blockos.Network.{
  Socket, max_sockets, no_socket, network_init, socket_create, socket_bind, socket_connect,
  socket_close, socket_send, to_int,
}

-- The calls that change the table.
pub data Call : Type 0 where
  creates : ℕ → Call
  binds : ℤ → ℕ → ℕ → Call
  connects : ℤ → ℕ → ℕ → Call
  closes : ℤ → Call

unfoldable pub step : List Socket → Call → List Socket
step t (creates type) = (socket_create t type).0
step t (binds sock ip port) = (socket_bind t sock ip port).0
step t (connects sock ip port) = (socket_connect t sock ip port).0
step t (closes sock) = (socket_close t sock).0

unfoldable pub after : List Socket → List Call → List Socket
after t [] = t
after t (c ∷ cs) = after (step t c) cs

-- What a call does to the link of socket `i`: it is made by a connect and ended by a close.
abbrev pub relink : ℕ → Call → Bool → Bool
relink i (creates type) b = b
relink i (binds sock ip port) b = b
relink i (connects (pos j) ip port) b = if j == i then true else b
relink i (connects (negsuc n) ip port) b = b
relink i (closes (pos j)) b = if j == i then false else b
relink i (closes (negsuc n)) b = b

unfoldable pub linked : ℕ → List Call → Bool → Bool
linked i [] b = b
linked i (c ∷ cs) b = linked i cs (relink i c b)

abbrev links : List Socket → List Bool
links t = map (λ s. s.connected) t

links-modify_same :
    (t : List Socket) (i : ℕ) (f : Socket → Socket)
    → ((s : Socket) → (f s).connected ≡ s.connected)
    → links (modify t i f) ≡ links t
links-modify_same [] i f h = refl
links-modify_same (s ∷ t) zero f h = ap (λ b. b ∷ links t) (h s)
links-modify_same (s ∷ t) (suc i) f h = ap (◌∷◌ s.connected) (links-modify_same t i f h)

links-set_same :
    (t : List Socket) (sock : ℤ) (a b : Socket)
    → slot t sock ≡ some a
    → b.connected ≡ a.connected
    → links (slot_set t sock b) ≡ links t
unfolding slot_set
links-set_same t (negsuc n) a b e h = refl
links-set_same [] (pos i) a b e h = refl
links-set_same (s ∷ t) (pos zero) a b e h =
    ap (λ c. c ∷ links t) (h ∙ sym (ap (λ s'. s'.connected) (some_inj s a e)))
  where
    some_inj : (x y : Socket) → some x ≡ some y → x ≡ y
    some_inj x y p = cc
links-set_same (s ∷ t) (pos (suc i)) a b e h =
    ap (◌∷◌ s.connected) (links-set_same t (pos i) a b e h)

get-set :
    (bs : List Bool) (i j : ℕ) (b c : Bool)
    → get_elem? bs i ≡ some c
    → get_elem? (set bs j b) i ≡ some (if j == i then b else c)
get-set bs i j b c e = elim (Bool-cases (j == i)) [
  | inl same ↦
      let ji : j ≡ i = (==_iff j i).0 same in
      rw same (ap (λ n. get_elem? (set bs n b) i) ji ∙ get_elem?-set_self bs i b (lt_of_get bs i e))
  | inr apart ↦ rw apart (get_elem?-set_ne bs j i b (ne apart) ∙ e)
]
  where
    ne : (j == i) ≡ false → j ≢ i
    ne p q = ground arith

links-create : (t : List Socket) (type : ℕ) → links (socket_create t type).0 ≡ links t
unfolding socket_create
links-create t type = elim (Option-cases (first_free (λ s. s.active) t)) [
  | inl full ↦ rw full refl
  | inr (i, free) ↦
      rw free
        (links-modify_same t i (λ s. record s { active = true; type = type; id = i }) (λ s. refl))
]

links-bind :
    (t : List Socket) (sock : ℤ) (ip port : ℕ) → links (socket_bind t sock ip port).0 ≡ links t
unfolding socket_bind
links-bind t sock ip port = elim (Option-cases (slot t sock)) [
  | inl out ↦ rw out refl
  | inr (s, found) ↦
      rw found (links-set_same t sock s (record s { local_ip = ip; local_port = port }) found refl)
]

outside :
    (t : List Socket) (sock : ℤ) (b : Bool)
    → slot t sock ≡ none
    → links t ≡ slot_set (links t) sock b
unfolding slot_set
outside t (negsuc n) b e = refl
outside [] (pos i) b e = refl
outside (s ∷ t) (pos zero) b e = ground arith
outside (s ∷ t) (pos (suc i)) b e = ap (◌∷◌ s.connected) (outside t (pos i) b e)

-- A connect or a close writes its bit, in range or not.
links-connect :
    (t : List Socket) (sock : ℤ) (ip port : ℕ)
    → links (socket_connect t sock ip port).0 ≡ slot_set (links t) sock true
unfolding socket_connect
links-connect t sock ip port = elim (Option-cases (slot t sock)) [
  | inl out ↦ rw out (outside t sock true out)
  | inr (s, found) ↦ rw found (
      map-slot_set (λ s'. s'.connected) t sock
        (record s { remote_ip = ip; remote_port = port; connected = true }))
]

links-close :
    (t : List Socket) (sock : ℤ) → links (socket_close t sock).0 ≡ slot_set (links t) sock false
unfolding socket_close
links-close t sock = elim (Option-cases (slot t sock)) [
  | inl out ↦ rw out (outside t sock false out)
  | inr (s, found) ↦ rw found (map-slot_set (λ s'. s'.connected) t sock no_socket)
]

step-links :
    (t : List Socket) (c : Call) (i : ℕ) (b : Bool)
    → get_elem? (links t) i ≡ some b
    → get_elem? (links (step t c)) i ≡ some (relink i c b)
unfolding step slot_set
step-links t (creates type) i b e = ap (λ bs. get_elem? bs i) (links-create t type) ∙ e
step-links t (binds sock ip port) i b e = ap (λ bs. get_elem? bs i) (links-bind t sock ip port) ∙ e
step-links t (connects (pos j) ip port) i b e =
    ap (λ bs. get_elem? bs i) (links-connect t (pos j) ip port) ∙ get-set (links t) i j true b e
step-links t (connects (negsuc n) ip port) i b e =
    ap (λ bs. get_elem? bs i) (links-connect t (negsuc n) ip port) ∙ e
step-links t (closes (pos j)) i b e =
    ap (λ bs. get_elem? bs i) (links-close t (pos j)) ∙ get-set (links t) i j false b e
step-links t (closes (negsuc n)) i b e = ap (λ bs. get_elem? bs i) (links-close t (negsuc n)) ∙ e

after-links :
    (cs : List Call) (t : List Socket) (i : ℕ) (b : Bool)
    → get_elem? (links t) i ≡ some b
    → get_elem? (links (after t cs)) i ≡ some (linked i cs b)
unfolding after linked
after-links [] t i b e = e
after-links (c ∷ cs) t i b e = after-links cs (step t c) i (relink i c b) (step-links t c i b e)

send_links :
    (t : List Socket) (i size : ℕ) (b : Bool)
    → get_elem? (links t) i ≡ some b
    → socket_send t (pos i) size ≡ (if b then to_int size else minus_one)
unfolding socket_send
send_links t i size b e = elim (Option-cases (get_elem? t i)) [
  | inl out ↦ absurd (none_some (rw out at flag))
  | inr (s, found) ↦
      let kept : s.connected ≡ b = of_some s.connected b (rw found at flag) in rw (found, kept) refl
]
  where
    flag : Option.map (λ s. s.connected) (get_elem? t i) ≡ some b
    flag = sym (get_elem?-map (λ s. s.connected) t i) ∙ e

    none_some : ¬ (◌≡◌ {A = Option Bool} none (some b))
    none_some q = ground arith

    of_some : (x y : Bool) → some x ≡ some y → x ≡ y
    of_some x y q = cc

get_replicate : (n i : ℕ) (b : Bool) → i < n → get_elem? (replicate n b) i ≡ some b
get_replicate zero i b h = ground arith
get_replicate (suc n) zero b h = refl
get_replicate (suc n) (suc i) b h = get_replicate n i b (omega arith)

-- After `network_init` and any calls, `socket_send` of a socket in range accepts all of the data if
-- the socket was connected and not closed since, created or not, and answers -1 otherwise.
pub socket_send-after :
    (cs : List Call) (i size : ℕ)
    → i < max_sockets
    → socket_send (after network_init.sockets cs) (pos i) size
      ≡ (if linked i cs false then to_int size else minus_one)
unfolding network_init
socket_send-after cs i size h =
    send_links (after (replicate max_sockets no_socket) cs) i size (linked i cs false) (
      after-links cs (replicate max_sockets no_socket) i false (
        ap (λ bs. get_elem? bs i) (map-replicate (λ s. s.connected) max_sockets no_socket)
        ∙ get_replicate max_sockets i false h))
