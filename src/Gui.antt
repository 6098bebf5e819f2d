-- ===== src/Gui.antt =====
-- The list of nodes on the screen (crates/gui): the view that the user asks for, and the virtual
-- model that shows it.
pub mod ViewState
pub mod Display
pub mod VirtualModel
pub mod Reverse
pub mod Rows
mod Tests
