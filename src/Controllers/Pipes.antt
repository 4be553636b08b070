-- ===== src/Controllers/Pipes.antt =====
-- services/control-plane/src/common/zod.pipe.ts, and what a handler's caller gets of a service: its
-- answer or the exception for what it threw. The issues that zod finds are an argument.
use absolo_cloud_services.Base.{Option, none, some, List}
use absolo_cloud_services.Result.{Result, ok, err}
use absolo_cloud_services.Errors.{Issue, Exception, exception_of}
use absolo_cloud_services.Runtime.Env.{Env}
use absolo_cloud_services.Runtime.State.{State}
use absolo_cloud_services.Runtime.Action.{Action}
use absolo_cloud_services.Contracts.JsonValues.{Value}

pub data Reply (A : Type 0) : Type 0 where
  sent : A → Reply A
  thrown : Exception → Reply A

unfoldable pub reply_of : {A : Type 0} → Result A → Reply A
unfolding exception_of
reply_of (ok a) = sent a
reply_of (err e) = thrown (exception_of e)

module _ ⦃env : Env⦄ where
  -- A handler without a body to validate.
  abbrev pub handled : {A : Type 0} → Action A → State → Reply A × State
  handled m s = (reply_of (m s).0, (m s).1)

  -- `@Body(new ZodPipe(schema)) body`: the handler runs only for a body that the schema accepts.
  unfoldable pub with_request :
      {A B : Type 0}
      → (Value → List Issue)
      → Value
      → Option B
      → (B → Action A)
      → State
      → Reply A × State
  unfolding reply_of
  with_request issues body none handler s = (thrown (Exception.validation (issues body)), s)
  with_request issues body (some request) handler s = handled (handler request) s

  -- A body that a schema refuses is thrown back before the handler runs; one that it accepts runs
  -- the handler with what the schema made of it.
  abbrev pub transform :
      {A B : Type 0}
      → (Value → Option B)
      → (Value → List Issue)
      → Value
      → (B → Action A)
      → State
      → Reply A × State
  transform schema issues body handler = with_request issues body (schema body) handler
