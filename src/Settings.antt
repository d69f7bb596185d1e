-- ===== src/Settings.antt =====
-- src/osc-settings.{h,cpp}: the settings dialog over the plugin's osc_apply_settings. The widgets are
-- Qt's: what they show of a value is a parameter.
pub mod Dialog
pub mod Accepting
pub mod Warning
