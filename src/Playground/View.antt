-- ===== src/Playground/View.antt =====
-- What `App` of playground/src/App.tsx renders in a state, and the page as it is used: a user's
-- events on what is rendered, and the answers of requests.
use goboxd.Base.{[], Option, some, ◌≡◌}
use goboxd.Playground.Value.{Engine}
use goboxd.Playground.State.{App, Page, play, bench, tests, initial}
use goboxd.Playground.Session.{Session, Answer}
use goboxd.Playground.Element.{Node, Fires}
use goboxd.Playground.PlayView.{render_play, bench_view}
use goboxd.Playground.TestsView.{render_tests}

unfoldable pub view_of : Page → Engine → Session → Option Node
unfolding render_play bench_view render_tests
view_of tests e s = render_tests e s
view_of bench e s = some (bench_view e s)
view_of play e s = render_play e s

-- `none` is a render that throws.
unfoldable pub view : Engine → Session → Option Node
unfolding view_of
view e s = view_of s.app.page e s

pub data Use (e : Engine) : Session → Session → Type 0 where
  event : {s t : Session} {n : Node} → view e s ≡ some n → Fires n t → Use e s t
  reply : {s t : Session} → Answer e s t → Use e s t

-- The sessions that come from the first render by use.
pub data Used (e : Engine) : Session → Type 0 where
  opened : {a : App} → initial ≡ some a → Used e (record { app = a; runs = []; checks = [] })
  used : {s t : Session} → Used e s → Use e s t → Used e t
