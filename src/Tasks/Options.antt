-- ===== src/Tasks/Options.antt =====
-- go/internal/tasks/transport.go: the hints of an enqueue. A delay is in nanoseconds.
use automation_agent.Common.{ℤ, pos, List, [], ◌∷◌, Text}

pub record Options : Type 0 where
  pub name : Text
  pub delay : ℤ

abbrev no_options : Options
no_options = record { name = []; delay = pos 0 }

-- `WithName` and `WithDelay`
pub data Option : Type 0 where
  with_name : Text → Option
  with_delay : ℤ → Option

abbrev set : Option → Options → Options
set (with_name name) o = record o { name = name }
set (with_delay d) o = record o { delay = d }

abbrev set_all : List Option → Options → Options
set_all [] o = o
set_all (f ∷ fs) o = set_all fs (set f o)

unfoldable pub apply : List Option → Options
apply opts = set_all opts no_options
