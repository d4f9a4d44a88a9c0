-- ===== src/Directory/Event.antt =====
-- registry/event.go: the events of a registry.
use incubator_dubbo_go.Prelude.{◌++◌, Option, none, some, Bool, true, if◌then◌else◌, Text, codes}
use incubator_dubbo_go.Url.{Url, key, is_empty}

-- remoting.EventType: add, delete, update, or a number that names none.
pub data EventType : Type 0 where
  add delete update other : EventType

pub record ServiceEvent : Type 0 where
  pub action : EventType
  pub service : Url
  pub cached_key : Text
  pub updated : Bool
  pub key_func : Option (Url → Text)

-- ServiceEvent.Update
unfoldable pub update_event : Url → ServiceEvent → ServiceEvent
update_event u e = record e { service = u; updated = true }

-- GetCacheInvokerMapKey: Key, with the time stamp of the URL that was parsed.
unfoldable pub cache_invoker_map_key : (Text → Text) → Url → Text
unfolding key
cache_invoker_map_key timestamp_of u =
    key u ++ (codes "&timestamp=" ++ timestamp_of u.primitive_url)

unfoldable pub make_key : (Text → Text) → Option (Url → Text) → Url → Text
unfolding cache_invoker_map_key
make_key timestamp_of none u = cache_invoker_map_key timestamp_of u
make_key timestamp_of (some f) u = f u

-- ServiceEvent.Key: made at the first call.
unfoldable pub event_key : (Text → Text) → ServiceEvent → Text × ServiceEvent
unfolding make_key
event_key timestamp_of e =
    let k = make_key timestamp_of e.key_func e.service in
    if is_empty e.cached_key then (k, record e { cached_key = k }) else (e.cached_key, e)
