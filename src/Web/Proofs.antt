-- ===== src/Web/Proofs.antt =====
-- What holds of the middleware chain and of a server that is active.
use ii_server_host.Prelude.{
  ◌==◌, if_rule, length, length-append, ◌≤◌, ◌≡◌, refl, ap, false, Option, none, some, List, [],
  ◌∷◌, ◌++◌, arith,
}
use ii_server_host.Web.{WebError, Middleware, WebServer, active, dispatch, use_middleware}

module _ {Request Response Router : Type 0} where
  dispatch-append :
      (route_of : Router → Request → Response) (router : Router) (m : Middleware Request Response)
      (ms : List (Middleware Request Response)) (request : Request)
      → dispatch route_of router (ms ++ m ∷ []) request
        ≡ dispatch (λ r q. m q (route_of r)) router ms request
  unfolding dispatch
  dispatch-append route_of router m [] request = refl
  dispatch-append route_of router m (n ∷ ms) request =
      ap (n request) (λ i q. dispatch-append route_of router m ms q i)

  -- A middleware that an inactive server with less than sixty-four takes on stands between the
  -- earlier ones and the router.
  pub use-dispatch :
      (route_of : Router → Request → Response) (m : Middleware Request Response)
      (d : WebServer Request Response Router) (request : Request)
      → active d.native ≡ false
      → (length d.middleware == 64) ≡ false
      → dispatch route_of
          (use_middleware (some m) d).1.router
          (use_middleware (some m) d).1.middleware
          request
        ≡ dispatch (λ router q. m q (route_of router)) d.router d.middleware request
  unfolding use_middleware
  use-dispatch route_of m d request a n =
      rw (a, n) (dispatch-append route_of d.router m d.middleware request)

  -- Taking a middleware on keeps the chain within sixty-four.
  pub use-bounded :
      (m : Option (Middleware Request Response)) (d : WebServer Request Response Router)
      → length d.middleware ≤ 64
      → length (use_middleware m d).1.middleware ≤ 64
  unfolding use_middleware
  use-bounded none d b =
      if_rule
        (λ (x : Option WebError × WebServer Request Response Router). length x.1.middleware ≤ 64)
        (active d.native) (λ _. b) (λ _. b)
  use-bounded (some m) d b =
      if_rule
        (λ (x : Option WebError × WebServer Request Response Router). length x.1.middleware ≤ 64)
        (active d.native) (λ _. b)
        (λ _.
          if_rule
            (λ (x : Option WebError × WebServer Request Response Router).
              length x.1.middleware ≤ 64)
            (length d.middleware == 64) (λ _. b)
            (λ n. ground (arith, n, b, length-append d.middleware (m ∷ []))))
