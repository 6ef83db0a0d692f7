-- ===== src/Admin/Stop.antt =====
-- src/server/admin_server.cpp: which requests shut the server down.
use nexus_ftp_engine.Prelude.{
  ◌≡◌, ◌↔◌, refl, sym, ap, ◌∙◌, subst, true, ◌&&◌, Option, none, some, [], ◌∷◌, ◌++◌, arith,
  Bool-cases, inl, inr,
}
use nexus_ftp_engine.Bytes.{Bytes, bytes}
use nexus_ftp_engine.Platform.{Host, SocketHandle}
use nexus_ftp_engine.Session.{ServerContext}
use nexus_ftp_engine.Admin.{
  starts_with, contains, stop_target, expected_pass, is_get, wants_stop, handle_request,
}

-- The text stands at the front of another, or somewhere in it.
abbrev pub IsPrefix : Bytes → Bytes → Type 0
IsPrefix t s = (post : Bytes) × (s ≡ t ++ post)

abbrev pub IsInfix : Bytes → Bytes → Type 0
IsInfix t s = (pre : Bytes) × (post : Bytes) × (s ≡ pre ++ t ++ post)

starts_with-IsPrefix : (t s : Bytes) → starts_with t s ≡ true → IsPrefix t s
unfolding starts_with
starts_with-IsPrefix [] s e = (s, refl)
starts_with-IsPrefix (c ∷ t) [] e = cc
starts_with-IsPrefix (c ∷ t) (d ∷ s) e =
    let same : c ≡ d = ground (arith, e) in
    let (post, k) = starts_with-IsPrefix t s (ground (arith, e)) in
    (post, ap (λ x. d ∷ x) k ∙ ap (λ x. x ∷ (t ++ post)) (sym same))

starts_with-append : (t post : Bytes) → starts_with t (t ++ post) ≡ true
unfolding starts_with
starts_with-append [] post = refl
starts_with-append (c ∷ t) post = ground (arith, starts_with-append t post)

contains-IsInfix : (t s : Bytes) → contains t s ≡ true → IsInfix t s
unfolding contains
contains-IsInfix t [] e = let (post, k) = starts_with-IsPrefix t [] e in ([], post, k)
contains-IsInfix t (c ∷ s) e = elim (Bool-cases (starts_with t (c ∷ s))) [
  | inl here ↦ let (post, k) = starts_with-IsPrefix t (c ∷ s) here in ([], post, k)
  | inr later ↦
      let (pre, post, k) = contains-IsInfix t s (ground (arith, e, later)) in
      (c ∷ pre, post, ap (λ x. c ∷ x) k)
]

contains_front : (t s : Bytes) → starts_with t s ≡ true → contains t s ≡ true
unfolding contains
contains_front t [] e = e
contains_front t (c ∷ s) e = rw e

contains-append : (pre t post : Bytes) → contains t (pre ++ t ++ post) ≡ true
unfolding contains
contains-append [] t post = contains_front t (t ++ post) (starts_with-append t post)
contains-append (c ∷ pre) t post = elim (Bool-cases (starts_with t (c ∷ pre ++ t ++ post))) [
  | inl here ↦ rw here
  | inr later ↦ rw later (contains-append pre t post)
]

-- What the request has to contain: the key is the password of the environment, or else "admin123".
abbrev stop_key : Option Bytes → Bytes
stop_key none = b'a' ∷ b'd' ∷ b'm' ∷ b'i' ∷ b'n' ∷ b'1' ∷ b'2' ∷ b'3' ∷ []
stop_key (some pass) = pass

abbrev pub stop_command : Option Bytes → Bytes
stop_command env_pass = bytes "GET /stop?key=" ++ (stop_key env_pass ++ b' ' ∷ [])

stop_target-stop_command : (env_pass : Option Bytes) → stop_target env_pass ≡ stop_command env_pass
unfolding stop_target expected_pass bytes
stop_target-stop_command none = refl
stop_target-stop_command (some pass) = refl

module _ (h : Host) where
  open h use {World}

  stops-and :
      (env_pass : Option Bytes) (ctx : ServerContext) (client : SocketHandle) (request : Bytes)
      (w : World)
      → (handle_request h env_pass ctx client request w).0
        ≡ (starts_with (bytes "GET") request && contains (stop_target env_pass) request)
  unfolding handle_request is_get wants_stop
  stops-and env_pass ctx client request w = elim (Bool-cases (starts_with (bytes "GET") request)) [
    | inl get ↦ rw (get, handle_request)
    | inr other ↦ rw (other, handle_request)
  ]

  stops-target :
      (env_pass : Option Bytes) (ctx : ServerContext) (client : SocketHandle) (request : Bytes)
      (w : World)
      → ((handle_request h env_pass ctx client request w).0 ≡ true)
        ↔ (IsPrefix (bytes "GET") request × IsInfix (stop_target env_pass) request)
  stops-target env_pass ctx client request w = (
    (λ e.
        let both = sym (stops-and env_pass ctx client request w) ∙ e in
        (
          starts_with-IsPrefix (bytes "GET") request (ground (arith, both)),
          contains-IsInfix (stop_target env_pass) request (ground (arith, both)),
        )),
    (λ k.
        let ((after, at_front), (pre, post, inside)) = k in
        stops-and env_pass ctx client request w
        ∙ ap (λ b. b && contains (stop_target env_pass) request)
            (ap (starts_with (bytes "GET")) at_front ∙ starts_with-append (bytes "GET") after)
        ∙ ap (contains (stop_target env_pass)) inside
        ∙ contains-append pre (stop_target env_pass) post),
  )

  -- handleClient shuts the server down for a request exactly if it begins with "GET" and has, anywhere
  -- in it, "GET /stop?key=", the password of the environment or else "admin123", and a space.
  pub handle_request-stops :
      (env_pass : Option Bytes) (ctx : ServerContext) (client : SocketHandle) (request : Bytes)
      (w : World)
      → ((handle_request h env_pass ctx client request w).0 ≡ true)
        ↔ (IsPrefix (bytes "GET") request × IsInfix (stop_command env_pass) request)
  handle_request-stops env_pass ctx client request w =
      subst
        (λ t.
          ((handle_request h env_pass ctx client request w).0 ≡ true)
          ↔ (IsPrefix (bytes "GET") request × IsInfix t request))
        (stop_target-stop_command env_pass) (stops-target env_pass ctx client request w)
