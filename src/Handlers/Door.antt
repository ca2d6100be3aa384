-- ===== src/Handlers/Door.antt =====
-- src/handlers/Door.cpp.
mod Tests
use etheos.Base.{ℕ, Bool, some, List}
use etheos.Packet.Reader.{Reader, Outcome, ok, ◌>>=◌, get_char}
use etheos.Packet.Builder.{Builder}
use etheos.Maps.Walk.{GameMap}
use etheos.Maps.Doors.{Opener, open_door}

-- `Door_Open`.
unfoldable pub door_open : GameMap → Opener → Reader → Outcome (Bool × GameMap × List Builder)
unfolding open_door
door_open m o r = do (x, r1) ← get_char r; (y, r2) ← get_char r1; ok (open_door m (some o) x y)
