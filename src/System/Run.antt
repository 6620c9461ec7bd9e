-- ===== src/System/Run.antt =====
-- The next step in the states that the whole program comes to.
use virtual_force.Pc.Widget.{Widget}
use virtual_force.System.{System}
