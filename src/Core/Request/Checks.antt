-- ===== src/Core/Request/Checks.antt =====
-- Which calls of kube-core/src/request.rs refuse their parameters.
use kube.Prelude.{
  ◌≡◌, refl, ap, ◌∙◌, if◌then◌else◌, Bool, true, false, not, ◌&&◌, ◌||◌, none, some, String, Result,
  ok, err, ◌>>=◌, Option, arith,
}
use kube.Core.Query.{ValidationError}
use kube.Core.ListParams.{ListParams, validate as validate_list}
use kube.Core.WatchParams.{WatchParams, validate as validate_watch}
use kube.Core.DeleteParams.{DeleteParams, is_default}
use kube.Core.PatchParams.{
  GetParams, PostParams, validate_post, Patch, PatchParams, is_apply, validate as validate_patch,
}
use kube.Core.Patching.{fits, is_ok, validate-accepts}
use kube.Core.Request.{
  Request, Error, validation, build_request, serialize_body, checked, serialized, Codec,
  HttpRequest, Built, finish_request, refused, list, watch, get_one, create, delete_one,
  delete_collection, patch_one, replace, get_subresource, create_subresource, patch_subresource,
  replace_subresource, get_metadata, list_metadata, watch_metadata, patch_metadata,
}

-- The operations, with what they are called with.
pub data Call (T J Body : Type 0) : Type 0 where
  list_call list_metadata_call : ListParams → Call T J Body
  watch_call watch_metadata_call : WatchParams → String → Call T J Body
  get_call get_metadata_call : String → GetParams → Call T J Body
  create_call : PostParams → Body → Call T J Body
  delete_call : String → DeleteParams → Call T J Body
  delete_collection_call : DeleteParams → ListParams → Call T J Body
  patch_call patch_metadata_call : String → PatchParams → Patch T J → Call T J Body
  replace_call : String → PostParams → Body → Call T J Body
  get_subresource_call : String → String → Call T J Body
  create_subresource_call replace_subresource_call :
      String → String → PostParams → Body → Call T J Body
  patch_subresource_call : String → String → PatchParams → Patch T J → Call T J Body

module _ {T J Body : Type 0} (c : Codec T J Body) where
  unfoldable pub perform : Request → Call T J Body → Built c
  unfolding list watch get_one create delete_one delete_collection patch_one replace get_subresource
      create_subresource patch_subresource replace_subresource get_metadata list_metadata
      watch_metadata patch_metadata
  perform r (list_call lp) = list c r lp
  perform r (list_metadata_call lp) = list_metadata c r lp
  perform r (watch_call wp ver) = watch c r wp ver
  perform r (watch_metadata_call wp ver) = watch_metadata c r wp ver
  perform r (get_call name gp) = get_one c r name gp
  perform r (get_metadata_call name gp) = get_metadata c r name gp
  perform r (create_call pp body) = create c r pp body
  perform r (delete_call name dp) = delete_one c r name dp
  perform r (delete_collection_call dp lp) = delete_collection c r dp lp
  perform r (patch_call name pp p) = patch_one c r name pp p
  perform r (patch_metadata_call name pp p) = patch_metadata c r name pp p
  perform r (replace_call name pp body) = replace c r name pp body
  perform r (get_subresource_call sub name) = get_subresource c r sub name
  perform r (create_subresource_call sub name pp body) = create_subresource c r sub name pp body
  perform r (replace_subresource_call sub name pp body) = replace_subresource c r sub name pp body
  perform r (patch_subresource_call sub name pp p) = patch_subresource c r sub name pp p

module _ {T J Body : Type 0} where
  -- What is tested: the parameters of lists, watches and patches, and those of create; but not those of
  -- replace, and not those of creating or replacing a subresource.
  abbrev pub is_accepted : Call T J Body → Bool
  is_accepted (list_call lp) = is_ok (validate_list lp)
  is_accepted (list_metadata_call lp) = is_ok (validate_list lp)
  is_accepted (watch_call wp ver) = is_ok (validate_watch wp)
  is_accepted (watch_metadata_call wp ver) = is_ok (validate_watch wp)
  is_accepted (get_call name gp) = true
  is_accepted (get_metadata_call name gp) = true
  is_accepted (create_call pp body) = fits pp.field_manager
  is_accepted (delete_call name dp) = true
  is_accepted (delete_collection_call dp lp) = true
  is_accepted (patch_call name pp p) = fits pp.field_manager && (not pp.force || is_apply p)
  is_accepted (patch_metadata_call name pp p) =
      fits pp.field_manager && (not pp.force || is_apply p)
  is_accepted (replace_call name pp body) = true
  is_accepted (get_subresource_call sub name) = true
  is_accepted (create_subresource_call sub name pp body) = true
  is_accepted (replace_subresource_call sub name pp body) = true
  is_accepted (patch_subresource_call sub name pp p) =
      fits pp.field_manager && (not pp.force || is_apply p)

abbrev pub is_invalid : {A : Type 0} → Result Error A → Bool
is_invalid (ok a) = false
is_invalid (err (build_request e)) = false
is_invalid (err (serialize_body e)) = false
is_invalid (err (validation e)) = true

module _ {T J Body : Type 0} (c : Codec T J Body) where
  refused-valid :
      (req : HttpRequest Body) (o : Option String) → is_invalid (refused c req o) ≡ false
  refused-valid req none = refl
  refused-valid req (some e) = refl

  finish_request-valid : (req : HttpRequest Body) → is_invalid (finish_request c req) ≡ false
  finish_request-valid req = refused-valid req (c.refuses req)

  after_check :
      (r : Result ValidationError (Unit {0})) (next : Built c)
      → is_invalid next ≡ false
      → is_invalid (checked r >>= λ u. next) ≡ not (is_ok r)
  after_check (ok u) next h = h
  after_check (err e) next h = refl

  after_body :
      (r : Result String Body) (next : Body → HttpRequest Body)
      → is_invalid (serialized r >>= λ body. finish_request c (next body)) ≡ false
  after_body (ok body) next = finish_request-valid (next body)
  after_body (err e) next = refl

  after_choice :
      (b : Bool) (body : Body) (r : Result String Body) (next : Body → HttpRequest Body)
      → is_invalid ((if b then ok body else serialized r) >>= λ body. finish_request c (next body))
        ≡ false
  after_choice true body r next = finish_request-valid (next body)
  after_choice false body r next = after_body r next

  validate_post-fits : (pp : PostParams) → is_ok (validate_post pp) ≡ fits pp.field_manager
  unfolding validate_post
  validate_post-fits pp = ground arith

  -- A patch, wherever it is sent.
  patch_at-valid :
      (pp : PatchParams) (p : Patch T J) (next : Body → HttpRequest Body)
      → is_invalid (
          checked (validate_patch pp p) >>= λ u.
          (serialized (c.serialize p) >>= λ body. finish_request c (next body)))
        ≡ not (fits pp.field_manager && (not pp.force || is_apply p))
  patch_at-valid pp p next =
      after_check (validate_patch pp p) _ (after_body (c.serialize p) next)
      ∙ ap not (validate-accepts pp p)

  -- A call is refused for its parameters exactly where they are tested and do not pass, in all sixteen
  -- operations; the field manager of a replace is not tested.
  pub perform-is_accepted :
      (r : Request) (call : Call T J Body) → is_invalid (perform c r call) ≡ not (is_accepted call)
  unfolding perform list watch get_one create delete_one delete_collection patch_one replace
      get_subresource create_subresource patch_subresource replace_subresource get_metadata
      list_metadata watch_metadata patch_metadata
  perform-is_accepted r (list_call lp) = after_check (validate_list lp) _ (finish_request-valid _)
  perform-is_accepted r (list_metadata_call lp) =
      after_check (validate_list lp) _ (finish_request-valid _)
  perform-is_accepted r (watch_call wp ver) =
      after_check (validate_watch wp) _ (finish_request-valid _)
  perform-is_accepted r (watch_metadata_call wp ver) =
      after_check (validate_watch wp) _ (finish_request-valid _)
  perform-is_accepted r (get_call name gp) = finish_request-valid _
  perform-is_accepted r (get_metadata_call name gp) = finish_request-valid _
  perform-is_accepted r (create_call pp body) =
      after_check (validate_post pp) _ (finish_request-valid _) ∙ ap not (validate_post-fits pp)
  perform-is_accepted r (delete_call name dp) = after_body (c.serialize_delete dp) _
  perform-is_accepted r (delete_collection_call dp lp) =
      after_choice (is_default dp) c.empty_body (c.serialize_delete dp) _
  perform-is_accepted r (patch_call name pp p) = patch_at-valid pp p _
  perform-is_accepted r (patch_metadata_call name pp p) = patch_at-valid pp p _
  perform-is_accepted r (replace_call name pp body) = finish_request-valid _
  perform-is_accepted r (get_subresource_call sub name) = finish_request-valid _
  perform-is_accepted r (create_subresource_call sub name pp body) = finish_request-valid _
  perform-is_accepted r (replace_subresource_call sub name pp body) = finish_request-valid _
  perform-is_accepted r (patch_subresource_call sub name pp p) = patch_at-valid pp p _
