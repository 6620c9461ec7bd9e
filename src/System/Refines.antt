-- ===== src/System/Refines.antt =====
-- The whole program and its specification: the steps of the parent, the child and the force core, and runs.
use virtual_force.Prelude.{◌≡◌, refl, sym, ◌∙◌, [], ◌∷◌, map, map-cons, map-split, inl, inr}
use mathlib.Core.List.{map-append}
use virtual_force.Wire.{load_data}
use virtual_force.Controller.Report.{report}
use virtual_force.Main.{Parent}
use virtual_force.Main.Rounds.{round_delivers}
use virtual_force.Main.Commands.{round_idle, arrived_down}
use virtual_force.Pc.Messages.{read_of}
use virtual_force.Pc.Widget.{Qt, widget}
use virtual_force.System.{
  System, Step, user, refused, executes, reports, child_ends, reads, reads_none, idles, reconnects,
  core, Reach, start, later,
}
use virtual_force.System.Sound.{IsSound, same_parent, quiet_tells, reports_tell}
use virtual_force.System.Keeps.{Reach-IsSound}
use virtual_force.System.Start.{started}
use virtual_force.System.Spec.{
  Spec, does, ends, keeps_quiet, tells, holds, loses, renews, changes, Acts, none_yet, more,
  untouched,
}
use virtual_force.System.Stands.{Stands, Follows, does-Stands, read-window, holds-Stands}
use virtual_force.System.Events.{user-Follows}

module _ (qt : Qt) where
  Step-Follows :
      {s t : System} (a : Spec) → Step qt s t → IsSound s → Stands qt a s → Follows qt a t
  Step-Follows {s} a (user e w calls own h) v d =
      user-Follows qt a s e w calls own h v.window_known d
  Step-Follows {s} a (executes os r rs rest p q up here whole h) v d =
      let (c, cs, waits, read, others) = map-cons (read_of qt) a.asked (sym q ∙ d.asked_at) in
      let (p1, e, _, done, _, _, _) = round_delivers os s.parent r rest v.steady up here whole in
      let same : p1 ≡ p = same_parent (sym e ∙ h) in
      inr (
        _,
        does c cs waits,
        rw others (does-Stands qt a s c cs p v.steady.ready (rw (same, read) at done) d),
      )
  Step-Follows {s} a (refused at) v d = inr (
    _,
    ends,
    record {
      link_at = refl;
      queued_at = refl;
      asked_at = d.asked_at;
      regions_at = d.regions_at;
      news_at = d.news_at;
      held_at = d.held_at;
      state_at = d.state_at;
      axes_at = d.axes_at;
    },
  )
  Step-Follows {s} a (child_ends tcpi_state net c f lives off h) v d =
      let (r, e, news) = v.news in
      let after = quiet_tells qt tcpi_state net s.parent.force c f e news off h in
      inr (
        _,
        keeps_quiet r (rw d.regions_at at e),
        record {
          link_at = d.link_at;
          queued_at = d.queued_at;
          asked_at = d.asked_at;
          regions_at = rw (after, d.regions_at) refl;
          news_at = d.news_at;
          held_at = d.held_at;
          state_at = d.state_at;
          axes_at = d.axes_at;
        },
      )
  Step-Follows {s} a (reports net m n f lives h) v d =
      let (r, e, news) = v.news in
      let (loads, after) = reports_tell qt net s.parent.force m n f e news h in
      inr (
        _,
        tells r (rw d.regions_at at e),
        record {
          link_at = d.link_at;
          queued_at = d.queued_at;
          asked_at = d.asked_at;
          regions_at = rw (after, d.regions_at) refl;
          news_at =
              map-append load_data s.to_window (m ∷ [])
              ∙ rw (d.news_at, loads) (sym (map-append report a.news (r ∷ [])));
          held_at = d.held_at;
          state_at = d.state_at;
          axes_at = d.axes_at;
        },
      )
  Step-Follows {s} a (reads m ms w calls at q h) v d =
      let (r, rs, waits, loads, others) = map-cons report a.news (rw q at d.news_at) in
      inr (_, holds r rs waits, holds-Stands qt a s r rs m ms w loads others h d)
  Step-Follows {s} a (reads_none m n dropped ms w calls at no_report q h) v d =
      let (lost, rs, parts, others) =
        map-split report a.news (map load_data dropped) (map load_data ms)
          (sym (map-append load_data dropped ms) ∙ rw q at d.news_at) in
      let (holds_it, state, axes) = read-window qt m n s.window h in
      inr (
        _,
        loses lost rs parts,
        record {
          link_at = d.link_at;
          queued_at = d.queued_at;
          asked_at = d.asked_at;
          regions_at = d.regions_at;
          news_at = others;
          held_at = (rw no_report at holds_it) ∙ d.held_at;
          state_at = state ∙ d.state_at;
          axes_at = axes ∙ d.axes_at;
        },
      )
  Step-Follows {s} a (idles os p none_came here h) v d = inl (record {
    link_at = d.link_at;
    queued_at = d.queued_at;
    asked_at = d.asked_at;
    regions_at = round_idle os s.parent v.steady none_came h ∙ d.regions_at;
    news_at = d.news_at;
    held_at = d.held_at;
    state_at = d.state_at;
    axes_at = d.axes_at;
  })
  Step-Follows {s} a (reconnects os p at off h) v d = inr (
    _,
    renews (sym d.link_at ∙ at),
    record {
      link_at = refl;
      queued_at = refl;
      asked_at = d.queued_at;
      regions_at = round_idle os s.parent v.steady (arrived_down os off) h ∙ d.regions_at;
      news_at = refl;
      held_at = d.held_at;
      state_at = d.state_at;
      axes_at = d.axes_at;
    },
  )
  Step-Follows a (core f g k keep) v d = inr (
    _,
    changes f g k keep,
    record {
      link_at = d.link_at;
      queued_at = d.queued_at;
      asked_at = d.asked_at;
      regions_at = rw d.regions_at refl;
      news_at = d.news_at;
      held_at = d.held_at;
      state_at = d.state_at;
      axes_at = d.axes_at;
    },
  )

  Follows-Acts :
      {a0 a : Spec} {t : System}
      → Acts qt a0 a
      → Follows qt a t
      → (b : Spec) × Acts qt a0 b × Stands qt b t
  Follows-Acts {a0} {a} acts (inl d) = (a, acts, d)
  Follows-Acts acts (inr (b, act, d)) = (b, more acts act, d)

  pub Reach-Acts :
      {s0 s : System} {a0 : Spec}
      → IsSound s0
      → Stands qt a0 s0
      → Reach qt s0 s
      → (a : Spec) × Acts qt a0 a × Stands qt a s
  Reach-Acts {s0} {s} {a0} v d start = (a0, none_yet, d)
  Reach-Acts v d (later r x) =
      let (a, acts, stands) = Reach-Acts v d r in
      Follows-Acts acts (Step-Follows a x (Reach-IsSound qt v r) stands)

  pub started-Stands : (p : Parent) → Stands qt (untouched p.force) (started p)
  unfolding widget
  started-Stands p = record {
    link_at = refl;
    queued_at = refl;
    asked_at = refl;
    regions_at = refl;
    news_at = refl;
    held_at = refl;
    state_at = refl;
    axes_at = refl;
  }
