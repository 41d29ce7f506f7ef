-- ===== src/Flow.antt =====
-- Go's methods over a mutable object and the state of the AWS service. A statement goes on with a
-- value or returns from the method; what was written before a return stays written.
pub mod Laws
use provider_aws.Prelude.{Bool, Option, none, some, List, [], ◌∷◌, if◌then◌else◌}

-- What a call of a service gives: a response, or an error.
pub data Result (E A : Type 0) : Type 0 where
  ok : A → Result E A
  err : E → Result E A

-- The error that a request has given, or nil.
abbrev pub error_of : {E A : Type 0} → Result E A → Option E
error_of (ok a) = none
error_of (err e) = some e

-- `next` goes on to the following statement, and `done` returns from the method.
pub data Flow (T A : Type 0) : Type 0 where
  next : A → Flow T A
  done : T → Flow T A

-- The object that a method mutates, and the service behind the client.
pub record Env (R W : Type 0) : Type 0 where
  pub cr : R
  pub aws : W

abbrev pub Go : Type 0 → Type 0 → Type 0 → Type 0 → Type 0
Go R W T A = Env R W → Flow T A × Env R W

-- A request to the service, sent.
abbrev pub Request : Type 0 → Type 0 → Type 0 → Type 0
Request E W A = W → Result E A × W

module _ {R W T A B : Type 0} where
  abbrev pub continue : Flow T A → (A → Go R W T B) → Go R W T B
  continue (next a) f env = f a env
  continue (done t) f env = (done t, env)

  infixl 5 ◌>>=◌ ◌>>◌
  abbrev pub ◌>>=◌ : Go R W T A → (A → Go R W T B) → Go R W T B
  ◌>>=◌ m f env = let (r, env') = m env in continue r f env'

  abbrev pub ◌>>◌ : Go R W T A → Go R W T B → Go R W T B
  m >> k = m >>= λ _. k

module _ {R W T A : Type 0} where
  abbrev pub pure : A → Go R W T A
  pure a env = (next a, env)

  -- `return t`
  abbrev pub return : T → Go R W T A
  return t env = (done t, env)

  -- The value that a method has read from its object.
  abbrev pub gets : (R → A) → Go R W T A
  gets f env = (next (f env.cr), env)

module _ {R W T : Type 0} where
  -- An assignment to the object.
  abbrev pub modify : (R → R) → Go R W T Unit
  modify f env = (next tt, record env { cr = f env.cr })

  -- `if b { return t }`
  abbrev pub return_if : Bool → T → Go R W T Unit
  return_if b t = if b then return t else pure tt

module _ {E R W T : Type 0} where
  -- `if err := m(); err != nil { return t(err) }`
  abbrev pub return_if_err : (E → T) → Option E → Go R W T Unit
  return_if_err on_err none = pure tt
  return_if_err on_err (some e) = return (on_err e)

module _ {R W T A : Type 0} where
  -- `if p == nil { return t }`, and the value of the pointer.
  abbrev pub or_stop : T → Option A → Go R W T A
  or_stop t none = return t
  or_stop t (some a) = pure a

module _ {E R W T A : Type 0} where
  abbrev pub or_return : (E → T) → Result E A → Go R W T A
  or_return on_err (ok a) = pure a
  or_return on_err (err e) = return (on_err e)

  -- `rsp, err := req.Send(ctx)`, whatever the code does with the error
  abbrev pub send : Request E W A → Go R W T (Result E A)
  send req env = let (r, w) = req env.aws in (next r, record env { aws = w })

  -- `rsp, err := req.Send(ctx); if err != nil { return on_err(err) }`
  abbrev pub send_or : (E → T) → Request E W A → Go R W T A
  send_or on_err req env = let (r, w) = req env.aws in or_return on_err r (record env { aws = w })

module _ {E R W T : Type 0} where
  -- `if b { err = req.Send(ctx) }`, and the error, if there is one.
  abbrev pub send_if : Bool → Request E W Unit → Go R W T (Option E)
  send_if b req = if b then (send req >>= λ r. pure (error_of r)) else pure none

-- What a method has returned.
abbrev pub result_of : {T : Type 0} → Flow T T → T
result_of (next t) = t
result_of (done t) = t

-- A method that has run to its end.
abbrev pub Method : Type 0 → Type 0 → Type 0 → Type 0
Method R W T = Env R W → T × Env R W

module _ {R W U : Type 0} where
  abbrev pub run : Go R W U U → Method R W U
  run m env = let (r, env') = m env in (result_of r, env')

module _ {R W T U : Type 0} where
  -- A call of another method on the same object.
  abbrev pub call : Method R W U → Go R W T U
  call m env = let (u, env') = m env in (next u, env')

module _ {E R W T : Type 0} where
  -- `if b { err = m() }`, and the error, if there is one.
  abbrev pub call_if : Bool → Method R W (Option E) → Go R W T (Option E)
  call_if b m = if b then call m else pure none

module _ {R W T A : Type 0} where
  -- `for _, x := range xs { body }`
  unfoldable pub for_each : List A → (A → Go R W T Unit) → Go R W T Unit
  for_each [] body = pure tt
  for_each (x ∷ xs) body = body x >> for_each xs body

-- `resource.Managed`, as a controller's type assertion sees it.
pub data Managed (R : Type 0) : Type 0 where
  resource : R → Managed R
  unexpected : Managed R

module _ {R W T : Type 0} where
  -- `cr, ok := mg.(*R); if !ok { return bad }`, and the method's body.
  abbrev pub with_resource : T → Go R W T T → Managed R → W → T × Managed R × W
  with_resource bad body (resource cr) w =
      let (r, env) = body (record { cr = cr; aws = w }) in (result_of r, resource env.cr, env.aws)
  with_resource bad body unexpected w = (bad, unexpected, w)
