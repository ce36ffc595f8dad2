-- ===== src/Constants/Mocks/Accepts.antt =====
-- Rebuilding the definitions of a mock server accepts what was validated.
use qsmith.Prelude.{
  ℕ, suc, String, ◌≡◌, refl, ◌∙◌, sym, ap, Bool, true, false, ◌&&◌, Bool-cases, inl, inr, none,
  some, List, [], ◌∷◌, map, Outcome, ok, err, is_ok, Exec, ◌>>=◌, resume, and_then, if◌then◌else◌,
}
use qsmith.Prelude.Int.{ℤ, pos, eqb_ℤ}
use qsmith.Constants.Tables.{Section, pre_response, post_response, queue}
use qsmith.Constants.Plan.{
  CommandConfiguration, CommandInput, RawCommand, Planned, command_inputs,
  plan_definitions_for_commands,
}
use qsmith.Constants.Plan.Erase.{erase_plan, map_ok, nameless}
use qsmith.Constants.Suites.{
  CommandDto, OperationEntity, DefinitionEntity, order_or, commands_for_item,
}
use qsmith.Constants.Suites.Agree.{Alike, Rising, planned_orders, plan-Alike, plan-inputs}
use qsmith.Constants.Mocks.{
  PreCommands, MockApiDto, MockApiEntity, MockTables, payload_or, dict_commands,
  normalized_pre_commands, mock_commands, rows_then, validate_apis, validate_queues, api_rows,
  queue_rows, rebuild_apis, rebuild_queues,
}

-- Every entry is a dict with a configuration.
abbrev pub AllGiven : {C : Type 0} → PreCommands C → Type 0
AllGiven [] = Unit
AllGiven (none ∷ cs) = ⊥
AllGiven {C} (some c ∷ cs) = ((x : C) × (c.cfg ≡ some x)) × AllGiven cs

order_twice : (o : ℤ) (n : ℕ) → order_or o n ≡ order_or (order_or o n) n
order_twice o n = elim (Bool-cases (eqb_ℤ o (pos 0))) [
  | inl e ↦ rw e (same (eqb_ℤ (pos n) (pos 0)))
  | inr e ↦ rw e (rw e refl)
]
  where
    same : (b : Bool) → pos n ≡ (if b then pos n else pos n)
    same true = refl
    same false = refl

module _ {C : Type 0} (new_id : ℕ → String) where
  inputs-pre :
      (empty : C) (n : ℕ) (cs : PreCommands C)
      → AllGiven cs
      → map nameless (command_inputs new_id n (dict_commands new_id empty cs))
        ≡ map nameless (command_inputs new_id n (normalized_pre_commands new_id n cs))
  unfolding command_inputs dict_commands normalized_pre_commands
  inputs-pre empty n [] h = refl
  inputs-pre empty n (none ∷ cs) h = absurd h
  inputs-pre empty n (some c ∷ cs) ((x, e), h) =
      ap
        (λ (k : ℤ).
          input k (payload_or empty c.cfg)
          ∷ map nameless (command_inputs new_id (suc n) (dict_commands new_id empty cs)))
        (order_twice c.order n)
      ∙ ap
          (λ y.
            input (order_or (order_or c.order n) n) y
            ∷ map nameless (command_inputs new_id (suc n) (dict_commands new_id empty cs)))
          payload
      ∙ ap (λ rest. input (order_or (order_or c.order n) n) (payload_or c.whole c.cfg) ∷ rest)
          (inputs-pre empty (suc n) cs h)
    where
      input : ℤ → C → CommandInput C
      input k y = record { command_id = ""; command_order = k; cfg = y }

      payload : payload_or empty c.cfg ≡ payload_or c.whole c.cfg
      payload = rw e refl

-- The same routes: the dicts before the response have configurations, the stored commands are those
-- that were sent except for their identifiers, and the orders of a list rise.
module _ {C : Type 0} (new_id : ℕ → String) (operations : String → List (OperationEntity C)) where
  abbrev pub AlikeLists : List (CommandDto C) → String → Type 0
  AlikeLists sent id =
      Alike (mock_commands new_id 1 sent) (commands_for_item 1 (operations id))
      × Rising (planned_orders new_id (mock_commands new_id 1 sent))

  abbrev pub AlikeApi : C → MockApiDto C → MockApiEntity C → Type 0
  AlikeApi empty dto api =
      (dto.pre_response_commands ≡ api.pre_response_commands)
      × AllGiven dto.pre_response_commands
      × Rising (planned_orders new_id (dict_commands new_id empty dto.pre_response_commands))
      × AlikeLists dto.commands api.id

  abbrev pub AlikeApis : C → List (MockApiDto C) → List (MockApiEntity C) → Type 0
  AlikeApis empty [] [] = Unit
  AlikeApis empty (dto ∷ dtos) (api ∷ apis) = AlikeApi empty dto api × AlikeApis empty dtos apis
  AlikeApis empty [] (api ∷ apis) = ⊥
  AlikeApis empty (dto ∷ dtos) [] = ⊥

  abbrev pub AlikeQueues : List (List (CommandDto C)) → List String → Type 0
  AlikeQueues [] [] = Unit
  AlikeQueues (sent ∷ queues) (id ∷ ids) = AlikeLists sent id × AlikeQueues queues ids
  AlikeQueues [] (id ∷ ids) = ⊥
  AlikeQueues (sent ∷ queues) [] = ⊥

is_ok-map_ok : {A B : Type 0} (f : A → B) (o : Outcome A) → is_ok (map_ok f o) ≡ is_ok o
is_ok-map_ok f (ok a) = refl
is_ok-map_ok f (err message) = refl

is_ok-same :
    (o o' : Outcome Planned) → map_ok erase_plan o ≡ map_ok erase_plan o' → is_ok o ≡ is_ok o'
is_ok-same o o' e = sym (is_ok-map_ok erase_plan o) ∙ ap is_ok e ∙ is_ok-map_ok erase_plan o'

pub is_ok-then :
    {A B : Type 0} (o : Outcome A) (f : A → Outcome B) (b : Bool)
    → ((a : A) → is_ok (f a) ≡ b)
    → is_ok (and_then o f) ≡ (is_ok o && b)
is_ok-then (ok a) f b h = h a
is_ok-then (err message) f b h = refl

is_ok-resume :
    {S A B : Type 0} (o : Outcome A) (f : A → Exec S B) (b : Bool) (t : S)
    → ((a : A) (t : S) → is_ok (f a t).0 ≡ b)
    → is_ok (resume f o t).0 ≡ (is_ok o && b)
is_ok-resume (ok a) f b t h = h a t
is_ok-resume (err message) f b t h = refl

pub is_ok-bind :
    {S A B : Type 0} (m : Exec S A) (f : A → Exec S B) (b : Bool) (s : S)
    → ((a : A) (t : S) → is_ok (f a t).0 ≡ b)
    → is_ok ((m >>= f) s).0 ≡ (is_ok (m s).0 && b)
is_ok-bind m f b s h = is_ok-resume (m s).0 f b (m s).1 h

pub and_true : (b : Bool) → (b && true) ≡ b
and_true true = refl
and_true false = refl

is_ok-rows_then :
    {C : Type 0} (o : Outcome (List DefinitionEntity))
    (later : Exec (MockTables C) (List DefinitionEntity)) (b : Bool) (t : MockTables C)
    → is_ok (later t).0 ≡ b
    → is_ok (rows_then o later t).0 ≡ (is_ok o && b)
is_ok-rows_then (ok rows) later b t h =
    is_ok-bind later _ true t (λ a t'. refl) ∙ and_true (is_ok (later t).0) ∙ h
is_ok-rows_then (err message) later b t h = refl

and_assoc : (a b c : Bool) → (a && (b && c)) ≡ ((a && b) && c)
and_assoc true b c = refl
and_assoc false b c = refl

module _ {C : Type 0} (new_id : ℕ → String) (convert : C → Outcome CommandConfiguration) where
  abbrev plan_ok : List (RawCommand C) → Section → Bool
  plan_ok cs section = is_ok (plan_definitions_for_commands new_id convert cs section [])

  lists_ok :
      (operations : String → List (OperationEntity C)) (sent : List (CommandDto C)) (id : String)
      (section : Section)
      → AlikeLists new_id operations sent id
      → plan_ok (mock_commands new_id 1 sent) section
        ≡ plan_ok (commands_for_item 1 (operations id)) section
  lists_ok operations sent id section (alike, rising) =
      is_ok-same _ _ (plan-Alike new_id convert section _ _ [] [] alike rising refl)

  pre_ok :
      (empty : C) (cs : PreCommands C)
      → AllGiven cs
      → Rising (planned_orders new_id (dict_commands new_id empty cs))
      → plan_ok (dict_commands new_id empty cs) pre_response
        ≡ plan_ok (normalized_pre_commands new_id 1 cs) pre_response
  pre_ok empty cs given rising = is_ok-same _ _ (
      plan-inputs new_id convert pre_response _ _ [] [] (inputs-pre new_id empty 1 cs given) rising
        refl)

  api_rows_ok :
      (operations : String → List (OperationEntity C)) (api : MockApiEntity C)
      → is_ok (api_rows new_id convert operations api) ≡ (
          plan_ok (normalized_pre_commands new_id 1 api.pre_response_commands) pre_response
          && plan_ok (commands_for_item 1 (operations api.id)) post_response)
  api_rows_ok operations api =
      is_ok-then
        (plan_definitions_for_commands new_id convert
          (normalized_pre_commands new_id 1 api.pre_response_commands) pre_response [])
        _ _
        λ _.
          is_ok-then
            (plan_definitions_for_commands new_id convert (commands_for_item 1 (operations api.id))
              post_response [])
            _ true (λ _. refl)
          ∙ and_true _

  pub rebuild_apis_ok :
      (empty : C) (operations : String → List (OperationEntity C)) (dtos : List (MockApiDto C))
      (apis : List (MockApiEntity C)) (t : MockTables C)
      → AlikeApis new_id operations empty dtos apis
      → is_ok (rebuild_apis new_id convert operations apis t).0
        ≡ is_ok (validate_apis new_id convert empty dtos)
  unfolding rebuild_apis validate_apis
  rebuild_apis_ok empty operations [] [] t h = refl
  rebuild_apis_ok empty operations (dto ∷ dtos) (api ∷ apis) t ((same, given, rising, lists), h) =
      is_ok-rows_then (api_rows new_id convert operations api)
        (rebuild_apis new_id convert operations apis) rest _
        (rebuild_apis_ok empty operations dtos apis _ h)
      ∙ ap (λ b. b && rest) (api_rows_ok operations api)
      ∙ sym (and_assoc _ _ rest)
      ∙ ap (λ b. b && (plan_ok (commands_for_item 1 (operations api.id)) post_response && rest))
          (sym (
            pre_ok empty dto.pre_response_commands given rising
            ∙ ap (λ cs. plan_ok (normalized_pre_commands new_id 1 cs) pre_response) same))
      ∙ ap
          (λ b.
            plan_ok (dict_commands new_id empty dto.pre_response_commands) pre_response
            && (b && rest))
          (sym (lists_ok operations dto.commands api.id post_response lists))
      ∙ sym (
          is_ok-then
            (plan_definitions_for_commands new_id convert
              (dict_commands new_id empty dto.pre_response_commands) pre_response [])
            _ _
            λ _.
              is_ok-then
                (plan_definitions_for_commands new_id convert (mock_commands new_id 1 dto.commands)
                  post_response [])
                _ rest λ _. refl)
    where
      rest : Bool
      rest = is_ok (validate_apis new_id convert empty dtos)
  rebuild_apis_ok empty operations [] (api ∷ apis) t h = absurd h
  rebuild_apis_ok empty operations (dto ∷ dtos) [] t h = absurd h

  pub rebuild_queues_ok :
      (operations : String → List (OperationEntity C)) (queues : List (List (CommandDto C)))
      (ids : List String) (t : MockTables C)
      → AlikeQueues new_id operations queues ids
      → is_ok (rebuild_queues new_id convert operations ids t).0
        ≡ is_ok (validate_queues new_id convert queues)
  unfolding rebuild_queues validate_queues
  rebuild_queues_ok operations [] [] t h = refl
  rebuild_queues_ok operations (sent ∷ queues) (id ∷ ids) t (lists, h) =
      is_ok-rows_then (queue_rows new_id convert operations id)
        (rebuild_queues new_id convert operations ids) rest _
        (rebuild_queues_ok operations queues ids _ h)
      ∙ ap (λ b. b && rest)
          (is_ok-then
              (plan_definitions_for_commands new_id convert (commands_for_item 1 (operations id))
                queue [])
              _ true (λ _. refl)
            ∙ and_true _
            ∙ sym (lists_ok operations sent id queue lists))
      ∙ sym (
          is_ok-then
            (plan_definitions_for_commands new_id convert (mock_commands new_id 1 sent) queue []) _
            rest λ _. refl)
    where
      rest : Bool
      rest = is_ok (validate_queues new_id convert queues)
  rebuild_queues_ok operations [] (id ∷ ids) t h = absurd h
  rebuild_queues_ok operations (sent ∷ queues) [] t h = absurd h
