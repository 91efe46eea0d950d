-- ===== src/Session/Setup/Placeholder.antt =====
-- The placeholder of an instance is held at most once, and given back.
use nabu_iris.Common.{◌≡◌, ◌⊎◌, Bool, List, [], ◌∷◌, arith}
use nabu_iris.Session.Setup.{
  Hole, iova_hole_size, vp9_alloc_high_iova_hole, vp9_release_high_iova_hole,
}

-- What an instance does with its placeholder: it asks for one, or gives it up.
pub data HoleEvent : Type 0 where
  takes : Bool → Bool → HoleEvent
  drops : HoleEvent

unfoldable pub apply_event : Hole → HoleEvent → Hole
apply_event h (takes needed ok) = (vp9_alloc_high_iova_hole needed ok h).1
apply_event h drops = vp9_release_high_iova_hole h

unfoldable pub apply_events : Hole → List HoleEvent → Hole
apply_events h [] = h
apply_events h (e ∷ es) = apply_events (apply_event h e) es

-- One placeholder or none.
pub record Single (h : Hole) : Type 0 where
  pub balance : h.dma ≡ h.vp9_iova_hole_size
  pub one : (h.vp9_iova_hole_size ≡ 0) ⊎ (h.vp9_iova_hole_size ≡ iova_hole_size)

apply_event-Single : (h : Hole) (e : HoleEvent) → Single h → Single (apply_event h e)
unfolding apply_event vp9_alloc_high_iova_hole vp9_release_high_iova_hole
apply_event-Single h (takes needed ok) s = ground (arith, s)
apply_event-Single h drops s = ground (arith, s)

apply_events-Single : (h : Hole) (es : List HoleEvent) → Single h → Single (apply_events h es)
unfolding apply_events
apply_events-Single h [] s = s
apply_events-Single h (e ∷ es) s =
    apply_events-Single (apply_event h e) es (apply_event-Single h e s)

released : (h : Hole) → Single h → (vp9_release_high_iova_hole h).dma ≡ 0
unfolding vp9_release_high_iova_hole
released h s = ground (arith, s)

-- However often the queues are set up and the placeholder is dropped, it is allocated at most once at
-- a time, and the end of the instance, which drops it, leaves none of its memory allocated.
pub hole_released :
    (h : Hole) (es : List HoleEvent)
    → Single h
    → Single (apply_events h es) × ((vp9_release_high_iova_hole (apply_events h es)).dma ≡ 0)
hole_released h es s =
    (apply_events-Single h es s, released (apply_events h es) (apply_events-Single h es s))
