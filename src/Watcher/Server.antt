-- ===== src/Watcher/Server.antt =====
-- What kube-runtime/src/watcher.rs relies on of the API server and of the client that it calls.
use kube.Prelude.{Bool, false, EqLaws, ◌≡◌, some, String, ok, err, All}
use kube.Core.Resource.{
  Resource, WatchEvent, added, modified, bookmark, ErrorResponse, ObjectList, resource_version,
  Bookmark,
}
use kube.Reflector.Store.Contents.{Contents, Same, IsNamed, listed, after}
use kube.Watcher.Events.{applied, deleted}
use kube.Watcher.Options.{Config, to_list_params, to_watch_params}
use kube.Watcher.{ApiMode, ClientErr}

-- What the API server documents of list and watch, for one selection of objects: there is a content
-- of the cluster at each version, a list shows that of its version, a watch starts at the version it
-- is given, and each item of it leads from the content of one version to that of the next. The client
-- loses an event whose line it cannot decode (`request_events` of kube-client/src/client/mod.rs gives an
-- error for it, or drops it): the laws of an item hold if no event was lost on the way to it.
pub record ServerLaws {K : Type 0} (r : Resource K) ⦃e : EqLaws r.DynamicType⦄ (a : ApiMode K)
    (wc : Config) (dyntype : r.DynamicType) : Type 0 where
  pub snapshot : String → Contents r
  pub position : a.Stream → String
  -- Whether an event was lost between the item that was last taken and the one before it.
  pub lossy : a.Stream → Bool
  pub list_law :
      (w w' : a.World) (l : ObjectList K) (v : String)
      → a.list (to_list_params wc) w ≡ (ok l, w')
      → l.resource_version ≡ some v
      → All (IsNamed r) l.items × Same r (snapshot v) (listed r dyntype l.items)
  pub watch_law :
      (w w' : a.World) (v : String) (s : a.Stream)
      → a.watch (to_watch_params wc) v w ≡ (ok s, w')
      → position s ≡ v
  pub added_law :
      (w w' : a.World) (s s' : a.Stream) (obj : K)
      → a.next s w ≡ (some (ok (added obj)), s', w')
      → IsNamed r obj
        × (resource_version r obj ≡ some (position s'))
        × (lossy s' ≡ false
            → Same r
                (snapshot (position s'))
                (after r dyntype (applied obj) (snapshot (position s))))
  pub modified_law :
      (w w' : a.World) (s s' : a.Stream) (obj : K)
      → a.next s w ≡ (some (ok (modified obj)), s', w')
      → IsNamed r obj
        × (resource_version r obj ≡ some (position s'))
        × (lossy s' ≡ false
            → Same r
                (snapshot (position s'))
                (after r dyntype (applied obj) (snapshot (position s))))
  pub deleted_law :
      (w w' : a.World) (s s' : a.Stream) (obj : K)
      → a.next s w ≡ (some (ok (WatchEvent.deleted obj)), s', w')
      → IsNamed r obj
        × (resource_version r obj ≡ some (position s'))
        × (lossy s' ≡ false
            → Same r
                (snapshot (position s'))
                (after r dyntype (deleted obj) (snapshot (position s))))
  pub bookmark_law :
      (w w' : a.World) (s s' : a.Stream) (bm : Bookmark)
      → a.next s w ≡ (some (ok (bookmark bm)), s', w')
      → (position s' ≡ bm.metadata.resource_version)
        × (lossy s' ≡ false → Same r (snapshot (position s')) (snapshot (position s)))
  -- Errors on the stream do not move it, unless they are lost events.
  pub error_law :
      (w w' : a.World) (s s' : a.Stream) (x : ErrorResponse)
      → a.next s w ≡ (some (ok (WatchEvent.error x)), s', w')
      → lossy s' ≡ false
      → position s' ≡ position s
  pub failure_law :
      (w w' : a.World) (s s' : a.Stream) (x : ClientErr)
      → a.next s w ≡ (some (err x), s', w')
      → lossy s' ≡ false
      → position s' ≡ position s
