-- ===== src/Client/Continues.antt =====
-- The script of cmd/client/main.go when calls fail.
use temporal_durable_event_p.Base.{
  String, Option, none, some, List, [], ◌∷◌, ◌≡◌, refl, is_empty, Bool-cases, inl, inr, ◌≢◌,
}
use temporal_durable_event_p.Base.Exec.{Exec, Result, ok, err, pure, ◌>>=◌}
use temporal_durable_event_p.Proto
use temporal_durable_event_p.Client.{
  RpcError, Connection, Line, Console, Exit, tell, call, report, report_list, report_done,
  when_some, when_given,
}
use temporal_durable_event_p.Client.Script.{
  users, products, orders, clean_up, before_events, create_order, order_id, delete_first,
  report_update,
}

module _ {S : Type 0} where
  -- A step that neither exits nor panics.
  pub record Continues {A : Type 0} (m : Exec (Console S) Exit A) : Type 0 where
    pub at : (c : Console S) → (a : A) × ((m c).0 ≡ ok a)

  Continues->>= :
      {A B : Type 0} (m : Exec (Console S) Exit A) (f : A → Exec (Console S) Exit B)
      → Continues m
      → ((a : A) → Continues (f a))
      → Continues (m >>= f)
  Continues->>= m f h k = record { at = λ c. go (m c) f (h.at c) k }
    where
      go :
          {A B : Type 0} (t : Result Exit A × Console S) (f : A → Exec (Console S) Exit B)
          → (a : A) × (t.0 ≡ ok a)
          → ((a : A) → Continues (f a))
          → (b : B) × (((λ _. t) >>= f) t.1).0 ≡ ok b
      go (err e, c) f (a, bad) k = absurd cc
      go (ok a, c) f h k = (k a).at c

  Continues-tell : (line : Line) → Continues (tell line)
  Continues-tell line = record { at = λ c. (tt, refl) }

  Continues-pure : {A : Type 0} (a : A) → Continues (pure a)
  Continues-pure a = record { at = λ c. (a, refl) }

  Continues-call : {A : Type 0} (request : Exec S RpcError A) → Continues (call request)
  Continues-call request = record { at = λ c. (_, refl) }

  Continues-report :
      {A : Type 0} (name : String) (format : A → String) (r : Result RpcError A)
      → Continues (report name format r)
  Continues-report name format (err e) = record { at = λ c. (tt, refl) }
  Continues-report name format (ok a) = record { at = λ c. (tt, refl) }

  Continues-report_list :
      {A : Type 0} (name item : String) (format : Option A → String) (r : Result RpcError (List A))
      → Continues (report_list name item format r)
  Continues-report_list name item format (err e) = record { at = λ c. (tt, refl) }
  Continues-report_list name item format (ok xs) = record { at = λ c. (tt, refl) }

  Continues-report_done :
      (name : String) (r : Result RpcError (Unit {0})) → Continues (report_done name r)
  Continues-report_done name (err e) = record { at = λ c. (tt, refl) }
  Continues-report_done name (ok _) = record { at = λ c. (tt, refl) }

  Continues-when_some :
      {A : Type 0} (o : Option A) (f : A → Exec (Console S) Exit (Unit {0}))
      → ((a : A) → Continues (f a))
      → Continues (when_some o f)
  Continues-when_some none f h = record { at = λ c. (tt, refl) }
  Continues-when_some (some a) f h = h a

  Continues-when_given :
      (text : String) (f : String → Exec (Console S) Exit (Unit {0}))
      → ((t : String) → Continues (f t))
      → Continues (when_given text f)
  Continues-when_given text f h = record {
    at = λ c. elim (Bool-cases (is_empty text)) [
      | inl empty ↦ rw empty (tt, refl)
      | inr given ↦ rw given ((h text).at c)
    ];
  }

module _ {Struct S : Type 0} (conn : Connection Struct S) where
  ruleset continues_rules = (
    Continues->>=, Continues-tell, Continues-pure, Continues-call, Continues-report,
    Continues-report_list, Continues-report_done, Continues-when_some, Continues-when_given,
  )

  Continues-report_update :
      (e : Option RpcError) (r : Result RpcError (Option Proto.User))
      → Continues {S = S} (report_update conn e r)
  Continues-report_update e (err _) = record { at = λ c. (tt, refl) }
  Continues-report_update e (ok u) = record { at = λ c. (tt, refl) }

  Continues-users : Continues (users conn)
  unfolding users
  Continues-users = search (continues_rules, Continues-report_update) depth 30

  Continues-products : Continues (products conn)
  unfolding products
  Continues-products = search continues_rules depth 30

  Continues-delete_first :
      (r : Result RpcError (List Proto.OrderItem)) → Continues (delete_first conn r)
  Continues-delete_first (err e) = search continues_rules
  Continues-delete_first (ok []) = search continues_rules
  Continues-delete_first (ok (item ∷ items)) = search continues_rules

  Continues-clean_up :
      (user : Option Proto.User) (product : Option Proto.Product) (id : String)
      → Continues (clean_up conn user product id)
  unfolding clean_up
  Continues-clean_up user product id = search (continues_rules, Continues-delete_first) depth 30

  order_id-ok :
      (r : Result RpcError (Option Proto.Order)) (c : Console S)
      → r ≢ ok none
      → (id : String) × ((order_id conn r c).0 ≡ ok id)
  order_id-ok (err e) c n = ("", refl)
  order_id-ok (ok none) c n = absurd (n refl)
  order_id-ok (ok (some o)) c n = (o.id, refl)

  -- `CreateOrder` returns no nil order without an error.
  abbrev pub ReturnsOrders : Type 0
  ReturnsOrders = (req : Proto.CreateOrderRequest) (s : S) → (conn.create_order req s).0 ≢ ok none

  Continues-create_order :
      (user : Option Proto.User) → ReturnsOrders → Continues (create_order conn user)
  Continues-create_order none n = search continues_rules
  Continues-create_order (some u) n = record {
    at = λ c.
        let req : Proto.CreateOrderRequest = record { user_id = u.id; total_amount = "59.98" } in
        order_id-ok (conn.create_order req c.server).0
          (record c { server = (conn.create_order req c.server).1 }) (n req c.server);
  }

  Continues-orders :
      (user : Option Proto.User) (product : Option Proto.Product)
      → ReturnsOrders
      → Continues (orders conn user product)
  unfolding orders
  Continues-orders user product n = search (continues_rules, Continues-create_order) depth 30

  -- No error of a call ends the client before its events: whichever calls fail, it goes on to them,
  -- if `CreateOrder` returns an order where it returns no error.
  pub before_events-ok : (c : Console S) → ReturnsOrders → (before_events conn c).0 ≡ ok tt
  unfolding before_events
  before_events-ok c n =
      let continues : Continues (before_events conn) =
        search
          (
            continues_rules, Continues-users, Continues-products, Continues-orders,
            Continues-clean_up,
          )
          depth 30 in
      (continues.at c).1
