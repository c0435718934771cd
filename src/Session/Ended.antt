-- ===== src/Session/Ended.antt =====
-- A session of Session.cpp after its end.
use socks.Base.{◌≡◌, refl, ap, ◌∙◌, List, [], ◌∷◌, true, if_cases}
use socks.Session.{Env, Event, Session, handle, run}

handle_ended : (env : Env) (e : Event) (s : Session) → s.ended ≡ true → handle env e s ≡ s
unfolding handle
handle_ended env e s h =
    if_cases (λ t. t ≡ s) s.ended s _ (λ ended. refl) (λ on. absurd (cc (h, on)))

pub ended_stays : (env : Env) (es : List Event) (s : Session) → s.ended ≡ true → run env es s ≡ s
unfolding run
ended_stays env [] s h = refl
ended_stays env (e ∷ es) s h = ap (run env es) (handle_ended env e s h) ∙ ended_stays env es s h
