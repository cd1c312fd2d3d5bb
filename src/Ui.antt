-- ===== src/Ui.antt =====
-- src/ui: the gestures of a contact, the lists that are drawn as paper, and the sliders of the settings.
pub mod Pointer
pub mod PaperList
pub mod Sliders
pub mod Examples
