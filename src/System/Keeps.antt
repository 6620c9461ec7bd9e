-- ===== src/System/Keeps.antt =====
-- Every step of the whole program keeps its state sound.
use virtual_force.Prelude.{◌≡◌, sym, ◌∙◌, [], ◌∷◌}
use virtual_force.Wire.{load_cmd, data_size}
use virtual_force.Main.Commands.{arrived_down}
use virtual_force.Main.Rounds.{round_delivers}
use virtual_force.Pc.Widget.{Qt, ready_read}
use virtual_force.System.Sound.{
  IsSound, AreKnown, same_parent, dispatch-news, user-KnownStates, handle-known, reports-IsSound,
  core-IsSound, idle-IsSound, quiet-IsSound, AreKnown-append, AreKnown-behind,
}
use virtual_force.System.{
  System, Step, user, refused, executes, reports, child_ends, reads, reads_none, idles, reconnects,
  core, Reach, start, later,
}

module _ (qt : Qt) where
  Step-IsSound : {s t : System} → Step qt s t → IsSound s → IsSound t
  Step-IsSound {s} (user e w calls own h) v = record {
    steady = v.steady;
    news = v.news;
    window_known = handle-known qt e s.window h (user-KnownStates qt e s.link own) v.window_known;
    reports_known = v.reports_known;
  }
  Step-IsSound {s} (executes os r rs rest p q up here whole h) v =
      let (p1, e, steady1, d, _, _, _) = round_delivers os s.parent r rest v.steady up here whole in
      let same : p1 ≡ p = same_parent (sym e ∙ h) in
      let (n, en, news) = v.news in
      record {
        steady = rw same at steady1;
        news = (
          n,
          rw same at (dispatch-news (load_cmd r.data_read) s.parent.force v.steady.ready d ∙ en),
          news,
        );
        window_known = v.window_known;
        reports_known = v.reports_known;
      }
  Step-IsSound {s} (refused at) v = record {
    steady = v.steady;
    news = v.news;
    window_known = v.window_known;
    reports_known = v.reports_known;
  }
  Step-IsSound {s} (child_ends tcpi_state net c f lives off h) v =
      let (steady, news) = quiet-IsSound qt tcpi_state net s c f v off h in
      record {
        steady = steady;
        news = news;
        window_known = v.window_known;
        reports_known = v.reports_known;
      }
  Step-IsSound {s} (reports net m n f lives h) v =
      let (steady, news, known) = reports-IsSound qt net s m n f v h in
      record {
        steady = steady;
        news = news;
        window_known = v.window_known;
        reports_known = AreKnown-append s.to_window (m ∷ []) v.reports_known (known, tt);
      }
  Step-IsSound {s} (reads m ms w calls at q h) v =
      let (known, others) : AreKnown (m ∷ ms) = rw q at v.reports_known in
      record {
        steady = v.steady;
        news = v.news;
        window_known =
            handle-known qt (ready_read m data_size) s.window h ((λ _. known), tt) v.window_known;
        reports_known = others;
      }
  Step-IsSound {s} (reads_none m n dropped ms w calls at no_report q h) v = record {
    steady = v.steady;
    news = v.news;
    window_known =
        handle-known qt (ready_read m n) s.window h
          ((λ yes_report. absurd (let z = sym no_report ∙ yes_report in cc)), tt) v.window_known;
    reports_known = AreKnown-behind dropped ms (rw q at v.reports_known);
  }
  Step-IsSound {s} (idles os p none_came here h) v =
      let (steady, news) = idle-IsSound qt os s p v none_came h in
      record {
        steady = steady;
        news = news;
        window_known = v.window_known;
        reports_known = v.reports_known;
      }
  Step-IsSound {s} (reconnects os p at off h) v =
      let (steady, news) = idle-IsSound qt os s p v (arrived_down os off) h in
      record { steady = steady; news = news; window_known = v.window_known; reports_known = tt }
  Step-IsSound {s} (core f g k keep) v =
      let (steady, news) = core-IsSound qt f g k s.parent keep v.steady v.news in
      record {
        steady = steady;
        news = news;
        window_known = v.window_known;
        reports_known = v.reports_known;
      }

  pub Reach-IsSound : {s0 s : System} → IsSound s0 → Reach qt s0 s → IsSound s
  Reach-IsSound v start = v
  Reach-IsSound v (later r x) = Step-IsSound x (Reach-IsSound v r)
