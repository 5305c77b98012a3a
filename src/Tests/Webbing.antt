-- ===== src/Tests/Webbing.antt =====
-- A server with one middleware, on numbers for requests and answers.
use ii_server_host.Web.Proofs.{use-dispatch, use-bounded}
use ii_server_host.Prelude.{length, ℕ, ◌+◌, ◌≤◌, ◌≡◌, refl, false, some, [], ◌∷◌, arith}
use ii_server_host.Web.{Native, Middleware, WebServer, active, dispatch, use_middleware}

abbrev quiet : Native
quiet = record { listening = false; draining = false; connections = 0; error = [] }

abbrev adds_one : Middleware ℕ ℕ
adds_one request next = next (request + 1)

abbrev small_server : WebServer ℕ ℕ ℕ
small_server = record { native = quiet; router = 7; middleware = adds_one ∷ []; error = [] }

abbrev route_sum : ℕ → ℕ → ℕ
route_sum router request = router + request

use-dispatch_example :
    dispatch route_sum
      (use_middleware (some adds_one) small_server).1.router
      (use_middleware (some adds_one) small_server).1.middleware
      3
    ≡ dispatch (λ router q. adds_one q (route_sum router)) 7 (adds_one ∷ []) 3
unfolding active
use-dispatch_example = use-dispatch route_sum adds_one small_server 3 refl refl

use-bounded_example : length (use_middleware (some adds_one) small_server).1.middleware ≤ 64
use-bounded_example = use-bounded (some adds_one) small_server (omega arith)
