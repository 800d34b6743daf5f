-- ===== src/Datatable/World.antt =====
-- What the table controller acts on: the Hive connection, commands in the Alluxio master's pod,
-- Redis and the API server. None of them is part of the program, so an `Env` answers each call, and
-- may answer as it likes: the answer depends on the call and on all calls before it.
pub mod Laws
use fluid_data_table.Base.{ℕ, Bool, Option, none, some, List, ◌∷◌}
use fluid_data_table.Base.Text.{Text}
use fluid_data_table.Base.Dict.{Dict}
use fluid_data_table.Base.Result.{Error, Result, ok, err}

-- execpodName, execcontainerName and execnamespace of pkg/utils/exec/execInPod.go
pub record PodRef : Type 0 where
  pub pod_name : Text
  pub container_name : Text
  pub namespace : Text

-- A call that can change something outside the program.
pub data Event : Type 0 where
  hive_query : Text → Event
  exec_command : PodRef → List Text → Event
  redis_set : Text → Text → Event
  redis_del : Text → Event
  update_labels : Dict Text → Event
  update_finalizers : List Text → Event

-- The events so far, the newest first.
abbrev pub History : Type 0
History = List Event

-- kubeclient.ExecCommandInContainer
pub record ExecResult : Type 0 where
  pub stdout : Text
  pub stderr : Text
  pub error : Option Error

pub record Env : Type 0 where
  -- gohive's Query; a row is an error if its Scan fails
  pub query : History → Text → Result (List (Result Text))
  pub exec_command_in_container : History → PodRef → List Text → ExecResult
  -- Redis: whether ZRANK finds a member, ZRANGE 0 -1, EXISTS, GET, and the errors of SET and DEL
  pub zrank : History → Text → Bool
  pub zrange : History → List Text
  pub exists_key : History → Text → ℕ
  pub get_key : History → Text → Text
  pub set_key : History → Text → Text → Option Error
  pub del_key : History → Text → Option Error
  -- the API server: the Alluxio runtimes, by name and namespace
  pub list_runtimes : History → Result (List (Text × Text))
  -- labels.Parse of `key=true`
  pub parse_selector : Text → Option Error
  -- how many DataTables have the label `key=true`
  pub list_datatables : History → Text → Result ℕ
  -- the labels of the DataTable that is read again, and the write of it
  pub get_labels : History → Result (Dict Text)
  pub update_datatable : History → Option Error
  -- whether the DataTable that is read again has the schemas of its spec in its status
  pub same_schemas : History → Bool
  -- the generation of the DataTable after the write
  pub generation : History → ℕ
  -- gohive's Connect, and whether Close panics on the connection of a Connect that failed, which is
  -- nil
  pub connect : History → Option Error
  pub close_panics : History → Bool

pub record State : Type 0 where
  pub exec_pod : PodRef
  pub history : History

-- A Go function returns, returns an error, or panics.
pub data Outcome {ℓ} (A : Type ℓ) : Type ℓ where
  returned : A → Outcome A
  failed : Error → Outcome A
  panicked : Outcome A

abbrev pub Prog {ℓ} : Type ℓ → Type ℓ
Prog A = State → Outcome A × State

module _ {ℓ} {A : Type ℓ} where
  abbrev pub pure : A → Prog A
  pure a s = (returned a, s)

  abbrev pub fail : Error → Prog A
  fail e s = (failed e, s)

  abbrev pub panic : Prog A
  panic s = (panicked, s)

  -- Go on with the error as a value, as code does that looks at it or drops it.
  abbrev pub attempt_outcome : Outcome A → Outcome (Result A)
  attempt_outcome (returned a) = returned (ok a)
  attempt_outcome (failed e) = returned (err e)
  attempt_outcome panicked = panicked

  abbrev pub attempt : Prog A → Prog (Result A)
  attempt m s = let (r, s') = m s in (attempt_outcome r, s')

  abbrev pub lift : Result A → Prog A
  lift (ok a) s = (returned a, s)
  lift (err e) s = (failed e, s)

module _ {ℓ κ} {A : Type ℓ} {B : Type κ} where
  abbrev pub continue : Outcome A → (A → Prog B) → Prog B
  continue (returned a) f s = f a s
  continue (failed e) f s = (failed e, s)
  continue panicked f s = (panicked, s)

  infixl 10 ◌>>=◌ ◌>>◌
  unfoldable pub ◌>>=◌ : Prog A → (A → Prog B) → Prog B
  ◌>>=◌ m f s = let (r, s') = m s in continue r f s'

  abbrev pub ◌>>◌ : Prog A → Prog B → Prog B
  m >> n = m >>= λ _. n

-- `return err` where err may be nil.
abbrev pub check : Option Error → Prog (Unit {0})
check none s = (returned tt, s)
check (some e) s = (failed e, s)

abbrev pub record_event : Event → State → State
record_event e s = record s { history = e ∷ s.history }

module _ (env : Env) where
  -- conn.Query
  unfoldable pub run_query : Text → Prog (List (Result Text))
  run_query sql s = lift (env.query s.history sql) (record_event (hive_query sql) s)

  -- exec of pkg/utils/exec/execInPod.go: it also stores the pod in the package's variables.
  unfoldable pub exec : PodRef → List Text → Prog ExecResult
  exec pod command s = (
    returned (env.exec_command_in_container s.history pod command),
    record { exec_pod = pod; history = exec_command pod command ∷ s.history },
  )

  -- The result of a command whose error is returned.
  unfoldable pub exec_checked : PodRef → List Text → Prog Text
  unfolding exec ◌>>=◌
  exec_checked pod command = do r ← exec pod command; check r.error; pure r.stdout
